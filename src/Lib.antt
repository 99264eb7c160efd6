-- ===== src/Lib.antt =====
-- Verification of registry.k8s.io, the redirector of the Kubernetes project's container images and
-- the code around it.
--
-- The program archeio (cmd/archeio) answers each request with a redirect. A request for a blob
-- goes to a bucket near the client if the blob is there, and to the upstream registry otherwise;
-- every other registry request goes upstream. It finds the client's address (pkg/net/clientip),
-- maps it to a cloud and a region with a trie of address prefixes (pkg/net/cloudcidrs over
-- pkg/net/cidrs), picks the region's bucket, and remembers which blobs it has seen there
-- (cmd/archeio/internal/app/buckets.go).
--
-- The program geranos (cmd/geranos) copies the layers of all images to a bucket. It walks over the
-- images of the registry, starts a job for each in a group of goroutines, and each job uploads the
-- layers that the bucket lacks and then a record of the image, by which a later run skips it. The
-- table of address ranges is the output of a generator (pkg/net/cloudcidrs/internal/ranges2go).
--
-- The files and the code that they model:
--
-- - Prelude: Boolean tests on the native numbers, texts as lists of bytes, lists, results, bits,
--   and Go's maps as association lists.
-- - Netip: the part of Go's net/netip that is used. An address is a number with its family and
--   zone; `contains` is Prefix.Contains.
-- - GoText: strings.HasPrefix, TrimPrefix, Split and FieldsFunc, path.Join, path.Clean and
--   path.Dir, and the part of regexp that is used, as matching with backtracking against a
--   relation of what matches.
-- - Cidrs.Words, Cidrs.Trie, Cidrs.TrieMap: pkg/net/cidrs/triemap.go. `insert_ipv4`,
--   `insert_ipv6`, `get_ipv4` and `get_ipv6` are the methods of trieMap; `insert` and `get_ip` of
--   TrieMap those of TrieMap. Shortest is the abstract view of a mapper; the child modules of the
--   two lead from one bit to the refinement.
-- - Cidrs.BruteForce: pkg/net/cidrs/bruteforce.go. Mapping is a Go map in one order of its
--   iteration.
-- - Cloudcidrs: pkg/net/cloudcidrs/ipmapper.go and ipinfo.go, NewIPMapper and AllIPInfos.
-- - Cloudcidrs.Literals, Cloudcidrs.Google: pkg/net/cloudcidrs/zz_generated_range_data.go, the
--   part of the table for Google's cloud.
-- - Clientip: pkg/net/clientip/clientip.go, Get.
-- - Ranges2go: pkg/net/cloudcidrs/internal/ranges2go, the tables that the generator makes of the
--   three decoded documents (parse_aws.go, parse_gcp.go, parse_azure.go, prefix_helpers.go).
--   Collect has the list of entries that the three loops are compared with.
-- - Ranges2go.Dedupe: prefix_helpers.go again, with the slice as a memory that the loop reads and
--   writes by index.
-- - Ranges2go.Generate: gen.go of the same directory, the text of the generated file. `gen_region`
--   is the body of genCloud's loop; Sorted and Laws are about the order of iteration over the
--   maps, Decimals and Lines about reading a line back.
-- - Ranges2go.Main, Ranges2go.Pipeline: main.go of the same directory. `generator_main` is main.
-- - Archeio.Buckets, Archeio.Cache: cmd/archeio/internal/app/buckets.go. `blob_exists` is
--   BlobExists; Cache.Steps has its steps for requests that run at once.
-- - Archeio.Config, Archeio.Patterns, Archeio.Urls, Archeio.Handlers, Archeio.Server,
--   Archeio.Google: cmd/archeio/internal/app/handlers.go, and the configuration of
--   cmd/archeio/main.go (Config). Handlers.Places describes the bucket for a client. `handle` is
--   the function that MakeHandler returns and `handle_v2` the one of makeV2Handler.
-- - Archeio.Main: cmd/archeio/main.go. `http_server` is the server that main sets up, and
--   `main_run` what main and its goroutine do at each event: a request, the return of
--   ListenAndServe, a signal, and the return of Shutdown.
-- - Geranos.Store, Geranos.Uploader: cmd/geranos/s3uploader.go. Store has the S3 service that it
--   calls; `upload_image` is UploadImage and `copy_to_s3` is copyToS3.
-- - Geranos.Walk: cmd/geranos/walkimages.go and schemav1.go. `walk` gives the jobs that the walk
--   starts, `run_job` is the function of one job, and `run_jobs` runs them one after another.
-- - Geranos.Threads, Geranos.Crowd: the same two files for goroutines that run at once.
--   `job_thread` is the function of one job as the calls that it still makes, and `call` makes the
--   next; `copy_thread` is copyToS3 and `upload_thread` UploadImage. Crowd has the steps of a
--   group in which between two calls of a job the others make theirs; Alone compares a thread with
--   the function of Geranos.Walk.
-- - Geranos.RateLimit: cmd/geranos/ratelimitroundtrip.go. `round_trip` is RoundTrip; TrafficStep
--   has its calls by goroutines that run at once.
-- - Geranos.Main: cmd/geranos/main.go. `run` is Run.
-- - Integration: internal/integration/paths.go. `module_root_dir` is moduleRootDir.
-- - Coverage: hack/tools/require-coverage/main.go. `require_coverage` is main.
-- - Tests: examples at concrete inputs.
--
-- Parameters of the model are the table of cloud ranges (but for its part of Google's cloud),
-- net.SplitHostPort and netip.ParseAddr (the record Net), the answer of a HEAD request (Remote),
-- and netip.ParsePrefix and Prefix.String of the generator (the record PrefixText) with its
-- environment, files and decoders of JSON (the record Inputs), a writer, what %q prints (`quote`),
-- what net/http and os/signal report to the main of archeio (Event) with what Shutdown returns,
-- and what geranos calls of go-containerregistry (the records Registry and Client), its
-- configuration and visits (World): nothing is assumed of them. Of the S3 service (Service) the
-- record IsLawful has what is relied on: a key that is found is stored, an upload without an error
-- has stored its key, and nothing else is stored or removed. The theorems about what a run of
-- geranos copies suppose of each job (IsFaithful) that the reference's digest is the job's and
-- that a digest has one list of layers. Of the rate limiter (Network) the record IsTokenBucket has
-- the documented token bucket. Where a theorem needs it, the prefixes of the table are valid
-- (IsValid) and an address is in the range of its family (IsAddr), as netip guarantees.
--
-- A request for a blob takes the cache and returns it. In `run` the jobs of geranos run in any
-- order, each to its end, where the source runs them at once; in Crowd each call of the S3 service
-- is a step, and the answers of the registry do not change. The digits of a number have its value
-- as fuel, which is enough since a number of n digits is not less than n - 1; the search for a
-- module's root takes fuel, of which one more than the number of the path's segments is enough.
-- There is no other fuel: the loops over the bits of an address recurse on the number of bits, and
-- all others on a list. Words of 32 and 64 bits wrap around at their shifts. Strings are read byte
-- by byte; the character classes that the program names are of ASCII bytes.
--
-- Not modelled: logging, the parts of the table of cloud ranges for AWS and Azure (the generator's
-- output, which is a parameter), the timeouts of http.Server at work, and the shell scripts under
-- hack.
pub mod Prelude
pub mod Netip
pub mod Cidrs
pub mod Cloudcidrs
pub mod GoText
pub mod Clientip
pub mod Archeio
pub mod Ranges2go
pub mod Geranos
pub mod Coverage
pub mod Integration
pub mod Tests
