-- ===== src/Tests/Ipv4.antt =====
-- Runs of packages/core/src/parse/ip.ts.
use linklint.Common.{Text, codes, false, none, refl, some, split, true, ◌≡◌}
use linklint.Ipv4.{
  Ipv4Analysis, analyze_ipv4, decimal, parse_part, strip_trailing_root_dot, to_dotted,
}
use linklint.Ipv4.Canonical.{analyze_ipv4-canonical}

abbrev hexadecimal : Text
hexadecimal = codes "0x7f.1."

abbrev loopback : Ipv4Analysis
loopback = record { obfuscated = true; canonical = codes "127.0.0.1" }

analyze_hexadecimal : analyze_ipv4 hexadecimal ≡ some loopback
unfolding analyze_ipv4 parse_part decimal split strip_trailing_root_dot to_dotted
analyze_hexadecimal = refl

analyze_rejects :
    (analyze_ipv4 (codes "1.2.3.08.")
      ≡ some (record { obfuscated = true; canonical = codes "1.2.3.8" }))
    × (analyze_ipv4 (codes "256.1.1.1") ≡ none)
    × (analyze_ipv4 (codes "4294967296") ≡ none)
    × (analyze_ipv4 (codes "1.2.3.4..") ≡ none)
unfolding analyze_ipv4 parse_part decimal split strip_trailing_root_dot to_dotted
analyze_rejects = (refl, refl, refl, refl)

analyze_ipv4-canonical_example :
    analyze_ipv4 loopback.canonical
    ≡ some (record { obfuscated = false; canonical = loopback.canonical })
analyze_ipv4-canonical_example = analyze_ipv4-canonical hexadecimal loopback analyze_hexadecimal
