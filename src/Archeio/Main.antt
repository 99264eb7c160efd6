-- ===== src/Archeio/Main.antt =====
-- cmd/archeio/main.go: the server as `main` sets it up, and a process from the start of the server to
-- its end. The server of net/http is a parameter by what it reports to `main`, as events.
pub mod Exits
pub mod Run
use registry_k8s_io.Archeio.Cache.{BlobCache, Remote, new_cached_blob_checker}
use registry_k8s_io.Archeio.Config.{RegistryConfig, get_env, registry_config}
use registry_k8s_io.Archeio.Handlers.{Response, handle}
use registry_k8s_io.Archeio.Server.{server}
use registry_k8s_io.Cidrs.Mapping.{Mapping}
use registry_k8s_io.Clientip.{Net, Request}
use registry_k8s_io.Cloudcidrs.{IpInfo}
use registry_k8s_io.Prelude.{ℕ, ◌*◌, Option, none, some, List, [], ◌∷◌, ◌++◌, Text, codes}

-- What is set of an `http.Server`. The handler has the remote buckets at the time of a request, and the
-- cache.
pub record HttpServer : Type 0 where
  pub addr : Text
  pub handler : Remote → Request → BlobCache → Response × BlobCache
  pub read_timeout : ℕ
  pub read_header_timeout : ℕ

-- `time.Second`
abbrev pub second : ℕ
second = 1000000000

-- An error of `ListenAndServe`: the one for a server that was shut down, or any other.
pub data ListenError : Type 0 where
  server_closed : ListenError
  listen_failed : Text → ListenError

pub data Exit : Type 0 where
  returned : Exit
  fatal : Text → Exit

pub data Phase : Type 0 where
  serving : Phase
  stopping : Phase
  ended : Exit → Phase

-- A request is answered, `ListenAndServe` returns, a signal arrives that `main` has asked for, or
-- `Shutdown` returns.
pub data Event : Type 0 where
  request : Remote → Request → Event
  listen_returned : Option ListenError → Event
  signalled : Event
  shutdown_returned : Event

-- A request with its answer, and the remote buckets at its time.
pub record Entry : Type 0 where
  pub remote : Remote
  pub request : Request
  pub response : Response

pub record Process : Type 0 where
  pub phase : Phase
  pub blobs : BlobCache
  pub log : List Entry

-- The goroutine that serves, after `ListenAndServe`.
unfoldable pub after_listen : Option ListenError → Phase → Phase
after_listen none p = p
after_listen (some server_closed) p = p
after_listen (some (listen_failed message)) p = ended (fatal message)

-- `main` after `Shutdown`.
unfoldable pub after_shutdown : Option Text → Phase
after_shutdown none = ended returned
after_shutdown (some message) = ended (fatal (codes "Server didn't exit gracefully " ++ message))

-- The table of ranges, the environment, and what `Shutdown` returns for a context with a timeout.
module _ (net : Net) (table : Mapping IpInfo) (lookup_env : Text → Option Text)
    (shutdown : ℕ → Option Text) where
  unfoldable pub http_server : HttpServer
  http_server = record {
    addr = codes ":" ++ get_env lookup_env (codes "PORT") (codes "8080");
    handler = λ head r blobs. handle (server net table head) (registry_config lookup_env) r blobs;
    read_timeout = 10 * second;
    read_header_timeout = 2 * second;
  }

  unfoldable pub answer : Remote → Request → Process → Process
  unfolding http_server
  answer head r p =
      let (response, blobs) = http_server.handler head r p.blobs in
      record {
        phase = p.phase;
        blobs = blobs;
        log = record { remote = head; request = r; response = response } ∷ p.log;
      }

  -- An event in a phase.
  unfoldable pub in_phase : Phase → Event → Process → Process
  unfolding answer after_listen after_shutdown
  in_phase (ended x) event p = p
  in_phase serving (request head r) p = answer head r p
  in_phase serving (listen_returned e) p = record p { phase = after_listen e serving }
  in_phase serving signalled p = record p { phase = stopping }
  in_phase serving shutdown_returned p = p
  in_phase stopping (request head r) p = answer head r p
  in_phase stopping (listen_returned e) p = record p { phase = after_listen e stopping }
  in_phase stopping signalled p = p
  in_phase stopping shutdown_returned p = record p {
    phase = after_shutdown (shutdown (5 * second));
  }

  unfoldable pub main_run : List Event → Process → Process
  unfolding in_phase
  main_run [] p = p
  main_run (event ∷ events) p = main_run events (in_phase p.phase event p)

  unfoldable pub main_start : Process
  main_start = record { phase = serving; blobs = new_cached_blob_checker; log = [] }
