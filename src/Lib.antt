-- ===== src/Lib.antt =====
-- linklint inspects one URL: an offline core parses it, runs detectors and a policy channel, and
-- scores the reasons found; an online package adds enrichers that fetch, look up and observe,
-- each behind a cache, a governor and a transport that refuses unsafe destinations. The modules
-- below follow the repository's parts; a definition has the source's name in snake case.
--
-- Score        packages/core/src/scoring: `aggregate` of score.ts, the bands of weights.ts, and in
--              Score/Suppress.antt `applySuppressions` of suppress.ts. The proofs are in Score/Order
--              (permutations) and Score/Bands (growth, the bands).
-- Cache        packages/core/src/enrichment-cache.ts: `get` and `set` of `InMemoryEnrichmentCache`;
--              Cache/Refines compares a whole history of calls with a specification of it.
-- Governor     packages/core/src/enrichment-governor.ts: the constructor, `admit`, `recordSuccess` and
--              `recordFailure`, as functions from the map of source states to the next one.
--              Governor/Bucket keeps the account of a history, Governor/Rate and Governor/Backoff
--              state what a source is let do.
-- Redirect     packages/online/src/resolution/redirect-chain.ts: `transitionFor` and what it calls in
--              Redirect/Transition, the loop of `enrich` in Redirect/Loop, one function for a round that
--              records the calls of the authorizer and of the transport in their order.
-- Ipv4         packages/core/src/parse/ip.ts: `analyzeIpv4` and what it calls; Ipv4/Canonical has the
--              proofs.
-- Ipv6         packages/core/src/parse/ip.ts: `analyzeIpv6` and what it calls. Ipv6/Hextets, Doubles,
--              ZeroRuns, Ranges and Spelling have lemmas on the groups, on `::` and on the longest run
--              of zeros, and Ipv6/Canonical the proofs.
-- Url          packages/core/src/parse: syntax.ts in Url/Syntax, `tokenizeRawUrl` of raw-tokens.ts in
--              Url/Tokens, raw-parts.ts in Url/Parts, decode.ts in Url/Decode and failure.ts in
--              Url/Failure; Url/Facts has the rest of the way from an input to its context
--              (prepare.ts, host-facts.ts, the lookup of psl.ts, context.ts, parse.ts and
--              authority-region.ts), and Url/Chars the invisible characters of
--              unicode/format-chars.ts. The proofs are in the modules below Url/Syntax, Url/Tokens
--              and Url/Parts, and in Url/Decode.
-- Csv          packages/online/src/mirrors/csv.ts: `parseCsvRow` (Csv/Fields, Csv/Quotes) and
--              `splitCsvLines` (Csv/Lines).
-- Inspect      packages/core/src/inspect.ts: the loops over the checks in Inspect.antt, `inspect` in
--              Inspect/Inspection, `runPolicy` of policy/policy.ts in Inspect/Policy and the builders
--              of schema/serialize.ts in Inspect/Result. Inspect/Checks, Accounts, Scores, Verdict and
--              Failures have the proofs.
-- Pin          packages/online/src/transport: `pinDestination` of pin.ts and
--              `classifyTransportAddress` of address.ts; Pin/Answers has the proofs.
-- Transport    packages/online/src/transport: the limits of policy.ts in Transport/Policy, headers.ts in
--              Transport/RequestHeaders, decompression.ts in Transport/Decoding, the causes of
--              outcome-registry.ts in Transport/Codes, and `SafeSession` of safe-transport.ts in
--              Transport.antt (the session, the reading of a body), Transport/Exchange (`execute` from
--              its connection on) and Transport/Fetch (`fetch` and the rest of `execute`).
--              Fetch/Reading, Spending and Budgets have the proofs on the limits, Fetch/Replies, Pinned
--              and Guarded those on the order of the port calls and on what a success rests on.
-- Der          packages/online/src/transport/tls-der.ts: `readTlv` and `childrenOf`, with a round of fuel
--              for each child; Der/Bounds shows that one more than there are bytes is enough.
--
-- Axes         packages/core/src/policy: the axes of tld.ts, host.ts, scheme.ts and port.ts, the table of
--              axes.ts, and in Axes/Lists `normalizePolicyOptions` of parse/runtime.ts.
-- Punycode     packages/core/src/unicode/punycode.ts: `decodeAceLabel`, and in Punycode/Encode
--              `encodeAceLabel` and `classifyAceLabel`. Decoding takes a round of fuel for each unit,
--              encoding one for each code point and one more than the delta for each integer, and
--              `adapt` as many as its delta; Punycode/Decoded, Encode/Ends, Encode/Integers and
--              Punycode/Adapt show that these are enough. The `>>` of `adapt` is a division here: the
--              source's works on 32 bits, which differs for a delta of 2^31 or more, as an encoded
--              label of about 32800 units can have.
-- Enrich       packages/core/src/inspect-async.ts, with the records and validators of schema/enrich.ts in
--              Enrich.antt and Enrich/Schema. Enrich/Slots has the cache slot, the TTL and the timeout,
--              Enrich/Runner has `runEnricher`, with its proofs in Reports, Calls, ReadBack and Writes;
--              Enrich/Plan has the preflight of `executeEnrichmentPlan`, Plan/Cycle
--              `findDependencyCycle` and Plan/Rounds the loop, one function for a round;
--              Enrich/Merge has `inspectAsync` itself and `suppressionSubjectHostContext` of
--              scoring/suppress.ts.
--
-- `inspect` scores through Score and Score/Suppress. The enrichers of the online package run
-- under the cache and the governor, which the runner of the core package consults; the redirect chain
-- is such an enricher, and its hops are inspected by the core again. The transport's `fetch` pins the
-- destination through Pin before it connects; the parser of Url classifies a host through Ipv4 and Ipv6.
--
-- Numbers. Every number is a natural one, or a `Number` (whole or not finite) where the code tests
-- that. Weights are hundredths and scores units of 1e-10, so the products of score.ts are exact here
-- and its rounding is the only one. A governor's tokens are counted in parts, of which the refill
-- interval makes one token. Clock answers are arguments of the calls, in milliseconds.
--
-- Texts. `Text` is a list of UTF-16 code units, where the code walks over a string; keys and reason
-- codes, which it only compares, are native strings.
--
-- Fuel. The redirect loop takes `max_hops + 1` rounds of fuel; Redirect.Loop.Budget.enrich-Ends shows
-- that this is enough, and that more changes nothing. The loop of a plan takes a round for each step,
-- which Enrich/Plan/Rounds/Total shows to be enough; the search for a cycle takes one nested call
-- more than there are pending steps, which Enrich/Plan/Cycle/Fuel shows; Cycle/Stuck,
-- Found and Sound show that it finds a cycle wherever the loop asks for one.
--
-- A check that throws is one that answers none; every loop without fuel is structural recursion.
--
-- Outside the model: `toLowerCase` and the conversions between texts and strings are the record
-- `Strings` of the axes; the tables of checks, the registry of reason codes, the URL parser and the
-- option intake are the fields of `Engine` and `Options`, which `inspect` takes. The parser of Url stands
-- on the list of public suffixes (tldts), the Unicode form of a host (tr46) and the Unicode classes of
-- regular expressions: the records `Libraries` and `Classes`. `isIP`, the block lists and the core's
-- classification of a host are the fields of `Platform`, which the pinning takes; `Runtime` adds to them
-- the platform's `URL`, lower case and zlib. What the resolver, the connector and the HTTP port answer
-- to one fetch, where its signal is found aborted, when its clock is read and whether its deadline wins
-- the race are the record `PortAnswers`; the session after a fetch is the one when its work has settled.
-- The platform's `URL`, text decoding and number parsing, the authorizer, the transport session and the
-- abort signal are the record `Environment` of the redirect chain. It takes the offline `inspect`,
-- `parseContentType`, `decodeHtml` and the scan for a refresh tag in the same way. What an enricher's
-- own functions, the cache and the governor answer to one run, whether a timer or the signal is first,
-- and whether the signal is set at each round, are the arguments `Answers` and `Enrichment`; the JSON
-- shape tests of schema/enrich.ts decide what is a `candidate`.
--
-- Not modelled: evidence payloads and timestamps, the usage getter of a transport session, the ports on
-- Node and the inspection of certificates (input and output around the parts above); the detectors and
-- the comparison of two URLs (packages/core/src/detectors and compare), the option intake, the other
-- enrichers of packages/online, the command line and the MCP server; and the generated tables, which are
-- data.
pub mod Common
pub mod Score
pub mod Cache
pub mod Governor
pub mod Redirect
pub mod Ipv4
pub mod Ipv6
pub mod Csv
pub mod Inspect
pub mod Pin
pub mod Transport
pub mod Der
pub mod Enrich
pub mod Axes
pub mod Punycode
pub mod Url
pub mod Tests
