-- ===== src/Enrich/Slots.antt =====
-- packages/core/src/inspect-async.ts: the cache slot, the TTL and the timeout of one enricher.
use linklint.Common.{
  Bool, List, Number, Option, String, Text, [], codes, false, if◌then◌else◌, includes, is_empty,
  is_none, none, not, positive, some, some_or, true, ℕ, ◌&&◌, ◌∷◌,
}
use linklint.Governor.{TimeoutSetting, null, number, omitted}
use linklint.Enrich.{
  Base, DynamicTtl, Enricher, Payload, RuntimeDegradation, check_token, failure, host_subject,
  inspection_subject, invalid_resolver, no_resolver, one_text, resolver, url_subject,
}

-- What `cacheKey` does.
pub data KeyAnswer : Type 0 where
  key_threw nullish not_a_text : KeyAnswer
  key_text : String → KeyAnswer

-- What `cacheTtlMsFor` does.
pub data TtlAnswer : Type 0 where
  ttl_threw ttl_undefined ttl_null ttl_not_a_number : TtlAnswer
  ttl_number : Number → TtlAnswer

-- The parts of the key that `JSON.stringify` puts into one text.
pub record CacheSlot : Type 0 where
  pub key : List String
  pub static_ttl_ms : Option ℕ

pub record CacheSlotResolution : Type 0 where
  pub slot : Option CacheSlot
  pub degradation : Option RuntimeDegradation

pub record CacheTtlResolution : Type 0 where
  pub ttl_ms : Option ℕ
  pub degradation : Option RuntimeDegradation

abbrev pub because : String → Option Payload
because reason = some (("reason", one_text reason) ∷ [])

abbrev pub failed_with : String → Bool → Option Payload → RuntimeDegradation
failed_with code retryable details = record {
  status = failure;
  code = code;
  retryable = retryable;
  details = details;
}

abbrev no_slot : CacheSlotResolution
no_slot = record { slot = none; degradation = none }

abbrev slot_failed : String → String → CacheSlotResolution
slot_failed code reason = record {
  slot = none;
  degradation = some (failed_with code false (because reason));
}

abbrev pub positive_option : Option Number → Option ℕ
positive_option none = none
positive_option (some n) = positive n

-- A key may not spell out the URL that is inspected.
abbrev pub is_unsafe_key : Base → Text → Bool
is_unsafe_key base key = elim (inspection_subject base).kind [
  | url_subject ↦ not (is_empty (codes base.input)) && includes (codes base.input) key
  | host_subject ↦ false
]

abbrev pub cache_namespace : String
cache_namespace = "linklint:enrichment:1.0"

abbrev pub at_key : Enricher → Base → Option ℕ → KeyAnswer → CacheSlotResolution
at_key enricher base static_ttl key_threw = slot_failed "cache-key-error" "threw"
at_key enricher base static_ttl nullish = no_slot
at_key enricher base static_ttl not_a_text = slot_failed "cache-key-error" "invalid-return"
at_key enricher base static_ttl (key_text key) =
    if is_empty (codes key)
    then slot_failed "cache-key-error" "invalid-return"
    else if is_unsafe_key base (codes key)
    then slot_failed "cache-key-error" "unsafe-full-url"
    else record {
      slot = some (record {
        key = cache_namespace ∷ check_token enricher ∷ key ∷ [];
        static_ttl_ms = static_ttl;
      });
      degradation = none;
    }

-- Whether `cacheKey` is called at all.
abbrev pub asks_key : Enricher → Bool
asks_key enricher = elim enricher.cache_ttl_ms_for [
  | invalid_resolver ↦ false
  | resolver ↦ enricher.has_cache_key
  | no_resolver ↦ enricher.has_cache_key && not (is_none (positive_option enricher.cache_ttl_ms))
]

abbrev is_invalid : DynamicTtl → Bool
is_invalid invalid_resolver = true
is_invalid resolver = false
is_invalid no_resolver = false

unfoldable pub cache_slot_for : Enricher → Base → KeyAnswer → CacheSlotResolution
cache_slot_for enricher base answer =
    if not enricher.has_cache_key
    then no_slot
    else if is_invalid enricher.cache_ttl_ms_for
    then slot_failed "cache-ttl-error" "invalid-resolver"
    else if not (asks_key enricher)
    then no_slot
    else at_key enricher base (positive_option enricher.cache_ttl_ms) answer

abbrev ttl_failed : String → CacheTtlResolution
ttl_failed reason = record {
  ttl_ms = none;
  degradation = some (failed_with "cache-ttl-error" false (because reason));
}

abbrev ttl_of : Option ℕ → CacheTtlResolution
ttl_of ttl = record { ttl_ms = ttl; degradation = none }

abbrev at_ttl : Option ℕ → TtlAnswer → CacheTtlResolution
at_ttl static_ttl ttl_threw = ttl_failed "threw"
at_ttl static_ttl ttl_undefined = ttl_of static_ttl
at_ttl static_ttl ttl_null = ttl_of none
at_ttl static_ttl ttl_not_a_number = ttl_failed "invalid-return"
at_ttl static_ttl (ttl_number n) = ttl_of (positive n)

unfoldable pub cache_ttl_for : Enricher → Option ℕ → TtlAnswer → CacheTtlResolution
cache_ttl_for enricher static_ttl answer = elim enricher.cache_ttl_ms_for [
  | resolver ↦ at_ttl static_ttl answer
  | no_resolver ↦ ttl_of static_ttl
  | invalid_resolver ↦ ttl_of static_ttl
]

abbrev pub default_enrichment_timeout_ms : ℕ
default_enrichment_timeout_ms = 5000

-- A positive timeout, `null` for none, or another value, which the next one in line replaces.
abbrev pub setting_or : TimeoutSetting → Option ℕ → Option ℕ
setting_or omitted next = next
setting_or null next = none
setting_or (number n) next = some_or (positive n) next

unfoldable pub effective_timeout_ms : TimeoutSetting → TimeoutSetting → Option ℕ
effective_timeout_ms enricher_timeout governor_timeout =
    setting_or enricher_timeout (setting_or governor_timeout (some default_enrichment_timeout_ms))
