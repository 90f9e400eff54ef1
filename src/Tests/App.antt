-- ===== src/Tests/App.antt =====
-- Requests of callers without the admin's credentials on small sites.
use ai_home_assistant.Config.Loader.{readable, unreadable}
use ai_home_assistant.Prelude.{
  ℕ, String, Option, none, some, true, List, [], ◌∷◌, ◌≡◌, refl, nat_eq,
}
use ai_home_assistant.Prelude.Dict.{get}
use ai_home_assistant.Prelude.Int.{pos}
use ai_home_assistant.Store.Exec.{ok, empty_db}
use ai_home_assistant.Config.Toml.{Fields}
use ai_home_assistant.Topology.EntityIndex.{lookup}
use ai_home_assistant.Store.Dao.{increment_privacy_drop}
use ai_home_assistant.Ingest.Pipeline.{submit, drop_hidden}
use ai_home_assistant.Service.{summary_of, on_state_changed}
use ai_home_assistant.Web.Auth.{HttpBasicCredentials, require_admin}
use ai_home_assistant.Web.App.{
  Site, Request, get_health, get_settings, open_stream, page_rooms, handle, serve,
}
use ai_home_assistant.Web.App.Outsider.{Unharmed, serve_outsider}
use ai_home_assistant.Web.App.Exposed.{open_stream_exposes}
use ai_home_assistant.Tests.Data.{toy_codec, event_at}
use ai_home_assistant.Tests.Service.{literally, at_home}

abbrev site : Site
site = record {
  service = at_home;
  token_file = some ("secret", 384);
  config_file = readable "[privacy]";
}

abbrev bare : Site
bare = record site {
  service = record at_home {
    ingest = record at_home.ingest { world = record at_home.ingest.world { db = empty_db } };
    hide_pattern = [];
  };
  config_file = unreadable;
}

abbrev guess : HttpBasicCredentials
guess = record { username = "admin"; password = "guess" }

abbrev probes : List (Option HttpBasicCredentials × ℕ × Request)
probes =
    (none, 5, get_settings)
    ∷ (some guess, 6, page_rooms)
    ∷ (none, 7, get_health)
    ∷ (none, 8, open_stream 3)
    ∷ []

abbrev loads_nothing : String → Option Fields
loads_nothing t = none

serve_outsider_example :
    let answers =
      serve toy_codec
        (λ n. n)
        (λ t. t)
        (λ t. some (pos 1))
        (λ n. "1")
        literally
        loads_nothing
        (λ f. "")
        true
        probes in
    ((answers site).0 ≡ (answers bare).0) × Unharmed site (answers site).1
unfolding require_admin
serve_outsider_example =
    serve_outsider toy_codec (λ n. n) (λ t. t) (λ t. some (pos 1)) (λ n. "1") literally
      loads_nothing (λ f. "") probes site bare
      ((λ h. cc), ((λ h. cc), ((λ h. cc), ((λ h. cc), tt))))
      (record { token = refl; health = refl })

takes : (submit (event_at 10 "person.guest") 10 1 at_home.ingest).0 ≡ ok tt
unfolding submit lookup get drop_hidden increment_privacy_drop
takes = refl

open_stream_exposes_example :
    let opened =
      handle toy_codec
        (λ n. n)
        (λ t. t)
        (λ t. some (pos 1))
        (λ n. "1")
        literally
        loads_nothing
        (λ f. "")
        true
        none
        8
        (open_stream 3)
        site in
    get 3
      (on_state_changed
        (λ _. "2026-01-01")
        (λ e. e.entity_id)
        (event_at 10 "person.guest")
        10
        1
        opened.1.service).1.queues
    ≡ some (summary_of (event_at 10 "person.guest") ∷ [])
open_stream_exposes_example =
    open_stream_exposes toy_codec (λ n. n) (λ t. t) (λ t. some (pos 1)) (λ n. "1") literally
      loads_nothing (λ f. "") none 8 3 site (λ _. "2026-01-01") (λ e. e.entity_id)
      (event_at 10 "person.guest") 10 1 takes
