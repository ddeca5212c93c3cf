-- ===== src/Tests/Ipv6.antt =====
-- Runs of the IPv6 part of packages/core/src/parse/ip.ts.
use linklint.Common.{codes, false, none, refl, some, split, true, ◌≡◌}
use linklint.Ipv6.{Ipv6Analysis, analyze_ipv6}
use linklint.Ipv6.Canonical.{analyze_ipv6-canonical}

abbrev mapped : Ipv6Analysis
mapped = record {
  obfuscated = false;
  canonical = codes "::ffff:102:304";
  embedded_ipv4 =
      some (record {
        address = codes "1.2.3.4";
        mechanism = codes "IPv4-mapped prefix ::ffff:0:0/96";
      });
}

abbrev padded : Ipv6Analysis
padded = record { obfuscated = true; canonical = codes "2001:db8::1:0:0:1"; embedded_ipv4 = none }

analyze_padded : analyze_ipv6 (codes "2001:0DB8:0:0:1:0:0:1") ≡ some padded
unfolding analyze_ipv6 split
analyze_padded = refl

analyze_forms :
    (analyze_ipv6 (codes "::FFFF:1.2.3.4") ≡ some mapped)
    × (analyze_ipv6 (codes "1.2.3.4::") ≡ none)
    × (analyze_ipv6 (codes "1::2::3") ≡ none)
    × (analyze_ipv6 (codes "fe80::1%eth0") ≡ none)
    × (analyze_ipv6 (codes "1:2:3:4:5:6:7::8") ≡ none)
    × (analyze_ipv6 (codes "::1")
        ≡ some (record { obfuscated = false; canonical = codes "::1"; embedded_ipv4 = none }))
unfolding analyze_ipv6 split
analyze_forms = (refl, refl, refl, refl, refl, refl)

analyze_ipv6-canonical_example :
    analyze_ipv6 padded.canonical ≡ some (record padded { obfuscated = false })
analyze_ipv6-canonical_example =
    analyze_ipv6-canonical (codes "2001:0DB8:0:0:1:0:0:1") padded analyze_padded
