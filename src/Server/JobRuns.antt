-- ===== src/Server/JobRuns.antt =====
-- Runs of the job handlers of internal/server/server.go.
use audio_server.Common.{ℕ, ◌≡◌, refl, true, false, none, some, length, List, [], ◌∷◌, inr}
use audio_server.Server.Types.{SpeechRequest, Provider, finite}
use audio_server.Server.Route.{routed}
use audio_server.Server.Jobs.{
  Names, Between, Stream, failure, audio_body, pcm, start_stream, create_job,
}
use audio_server.Server.Results.{
  State, concat, stream_result, run_stream, get_job_audio, get_job_stream,
}
use audio_server.Server.Created.{Answered, create_job-Answered}
use audio_server.Server.Streamed.{begun, get_job_audio-run_stream}
use audio_server.Queue.Types.{Manager, canceled}
use audio_server.Queue.Jobs.{new_job, store_job, new_running_job}
use audio_server.Queue.System.{new_manager}
use audio_server.Store.Files.{Directory, written}

abbrev numbers : Names
numbers = record { name = λ t. length t; spell = λ i. i ∷ []; speed = λ s. 0 }

abbrev streamer : Provider
streamer = record {
  id = 112 ∷ [];
  voices = λ language. inr [];
  supports_auto_language = none;
  reference_audio_capabilities = none;
  is_streamer = true;
  is_lifecycle = false;
}

abbrev live_request : SpeechRequest
live_request = record {
  model = [];
  input = 72 ∷ 105 ∷ [];
  voice = 77 ∷ 49 ∷ [];
  language = [];
  response_format = [];
  speed = finite false 0;
  provider_options = [];
  stream = true;
  speaker_reference = [];
  speaker_reference_filename = [];
  speaker_reference_text = [];
}

abbrev manager : Manager
manager =
    (new_manager (record {
      providers = [];
      resource_groups = [];
      switch_delay = λ _. 5;
      job_ttl = 100;
      has_gate = false;
    })).manager

abbrev undisturbed : Between
undisturbed = record { before_get = λ m. m; before_position = λ m. m }

abbrev live_stream : Stream
live_stream = record { job = 42; provider = streamer; request = live_request }

starts_live :
    (create_job numbers (routed live_request streamer) 42 7 undisturbed manager).stream
    ≡ some live_stream
unfolding create_job start_stream new_running_job new_job store_job new_manager
    audio_server.Queue.System.bare_manager audio_server.Queue.System.add_providers
    audio_server.Queue.System.add_groups
starts_live = refl

abbrev empty_store : Directory
empty_store name = none

create_job-Answered_example :
    Answered numbers
      (routed live_request streamer)
      42
      7
      undisturbed
      manager
      (create_job numbers (routed live_request streamer) 42 7 undisturbed manager)
create_job-Answered_example =
    create_job-Answered numbers (routed live_request streamer) 42 7 undisturbed manager refl

abbrev chunks : List (List ℕ)
chunks = (1 ∷ 2 ∷ []) ∷ (3 ∷ []) ∷ []

abbrev live_start : State
live_start =
    begun (create_job numbers (routed live_request streamer) 42 7 undisturbed manager)
      (some empty_store)

get_job_audio-run_stream_example :
    (get_job_audio 42 (run_stream numbers live_stream chunks none written 9 live_start).manager
      ≡ audio_body (stream_result numbers live_stream (concat chunks)))
    × (get_job_stream numbers true 42
          (run_stream numbers live_stream chunks none written 9 live_start)
        ≡ pcm (concat chunks))
    × (get_job_audio 42
          (run_stream numbers live_stream chunks (some canceled) written 9 live_start).manager
        ≡ failure 404)
get_job_audio-run_stream_example =
    get_job_audio-run_stream numbers (routed live_request streamer) 42 7 9 undisturbed manager
      live_stream chunks canceled (some empty_store) starts_live
