-- ===== src/Worker/Tests.antt =====
-- The theorems on the worker, applied to providers that are texts.
use model_courier.Prelude.{
  ◌≡◌, ◌≤◌, ◌⊎◌, refl, arith, String, true, false, none, some, [], ◌∷◌, contains,
}
use model_courier.Contracts.{CapabilityManifest}
use model_courier.Worker.Factory.{
  ProviderRegistration, ProviderFactory, create, register, discover, lookup, assign,
}
use model_courier.Worker.ProcessRunner.{execute, execute_child, collect, crashes}
use model_courier.Worker.Runtime.{
  Offer, offered, World, run_once, leaves, polls, starts, Caught, provider_error, caught, downloads,
  fails, failed, error_of, work, rounds,
}
use model_courier.Prelude.Texts.{size, first_chars}
use model_courier.Contracts.Checks.{is_error}
use model_courier.Worker.Runtime.Reporting.{fits, run_once-fits}
use model_courier.Worker.Runtime.Settling.{Began, run_once-Began}

abbrev whisper : CapabilityManifest
whisper = record {
  capability_id = "whisper";
  task_type = "audio.transcribe.v1";
  provider = "whisper";
  service_id = none;
  models = [];
  formats = [];
  max_concurrency = 1;
}

abbrev registration : ProviderRegistration String String
registration = record { capability = whisper; factory = λ config. config }

abbrev factory : ProviderFactory String String
factory = record { allowlist = some ("whisper" ∷ []); registrations = [] }

discovered :
    create String String "whisper" "config"
      (discover String String (some registration ∷ []) factory).1
    ≡ some "config"
unfolding create discover register lookup assign contains
discovered = refl

abbrev offer : Offer
offer = record {
  task_id = "t";
  lease_generation = 1;
  lease_token = "token";
  capability_id = "whisper";
  task = record {
    protocol_version = "1";
    task_type = "audio.transcribe.v1";
    input_artifacts = [];
    options = "{}";
    requires = record { provider = none; model = none; service_id = none; formats = [] };
    idempotency_key = "key";
    ttl_seconds = 60;
  };
}

abbrev world : World String String
world = record {
  poll = offered offer;
  start = true;
  validate = λ provider task. none;
  download = none;
  execution = λ provider task. crashes "ValueError" "no model";
  strip = λ text. text;
  refusal = λ result. "1 validation error for ProviderResult";
  publication = none;
  failing = true;
}

created :
    create String String "whisper" "config" (register String String registration factory)
    ≡ some "config"
unfolding create register lookup assign contains
created = refl

run_once-Began_example :
    Began String String world offer "config"
      (run_once String String "config" (register String String registration factory) world)
run_once-Began_example =
    run_once-Began String String "config" (register String String registration factory) world offer
      "config" refl refl created

-- A provider that fails an assertion without a message.
abbrev asserting : World String String
asserting = record world {
  execution = λ provider task. crashes "AssertionError" "";
  failing = false;
}

abbrev unmentionable : Caught
unmentionable = provider_error (record { code = "provider_error"; message = ""; retryable = true })

worked : work String String asserting offer "config" ≡ (caught unmentionable, downloads "t" ∷ [])
unfolding work execute execute_child collect first_chars
worked = refl

unanswered : false ≡ is_error (error_of "t" unmentionable)
unfolding is_error size
unanswered = refl

short : size "t" ≤ 121
unfolding size
short = ground arith

run_once-fits_example :
    ((fits unmentionable ≡ true)
      × ((run_once String String "config" (register String String registration factory) asserting).0
          ≡ failed "t" ""))
    ⊎ ((fits unmentionable ≡ false)
        × ((run_once String String "config"
              (register String String registration factory)
              asserting).0
            ≡ leaves)
        × (rounds String String "config"
              (register String String registration factory)
              (asserting ∷ world ∷ [])
            ≡ (
              false,
              polls ∷ starts "t" ∷ downloads "t" ∷ fails "t" (error_of "t" unmentionable) ∷ [],
            )))
run_once-fits_example =
    run_once-fits String String asserting offer "config" "config"
      (register String String registration factory) (world ∷ []) unmentionable (downloads "t" ∷ [])
      refl refl created worked short unanswered
