-- ===== src/Tests.antt =====
-- Runs on concrete inputs, and each theorem at such an input.
mod Score
mod Cache
mod Governor
mod Ipv4
mod Ipv6
mod Url
mod Redirect
mod Csv
mod Inspect
mod Pin
mod Transport
mod Der
mod Enrich
mod Axes
mod Punycode
