-- ===== src/Web/App/Outsider.antt =====
-- What a caller without the admin's credentials can learn and change by src/ai_ha/web/app.py.
use ai_home_assistant.Prelude.{
  ℕ, String, Option, true, List, [], ◌∷◌, ◌≡◌, refl, sym, ap, ◌∙◌, ◌⊎◌, inl, inr, ◌≢◌, All,
  Bool-cases,
}
use ai_home_assistant.Prelude.Int.{ℤ}
use ai_home_assistant.Topology.Snapshots.{Codec}
use ai_home_assistant.Config.Toml.{Fields}
use ai_home_assistant.Health.{snapshot}
use ai_home_assistant.Web.Auth.{
  HttpBasicCredentials, Verdict, granted, auth_required, auth_invalid, file_not_found,
  require_admin,
}
use ai_home_assistant.Web.App.{
  Site, Request, get_health, open_stream, Reply, unauthorized, failed_reading, is_open, route,
  gated, handle, serve,
}

-- Two sites that may differ in all but the token, the health metrics and the queues.
pub record Alike (s t : Site) : Type 0 where
  pub token : s.token_file ≡ t.token_file
  pub health : s.service.health ≡ t.service.health

-- What no request of an outsider touches.
pub record Unharmed (s t : Site) : Type 0 where
  pub ingest : t.service.ingest ≡ s.service.ingest
  pub archive : t.service.jsonl ≡ s.service.jsonl
  pub patterns : t.service.hide_pattern ≡ s.service.hide_pattern
  pub token : t.token_file ≡ s.token_file
  pub config : t.config_file ≡ s.config_file

Unharmed-refl : (s : Site) → Unharmed s s
Unharmed-refl s = record {
  ingest = refl;
  archive = refl;
  patterns = refl;
  token = refl;
  config = refl;
}

Unharmed-trans : (s t u : Site) → Unharmed s t → Unharmed t u → Unharmed s u
Unharmed-trans s t u h k = record {
  ingest = k.ingest ∙ h.ingest;
  archive = k.archive ∙ h.archive;
  patterns = k.patterns ∙ h.patterns;
  token = k.token ∙ h.token;
  config = k.config ∙ h.config;
}

open-cases :
    (r : Request) → is_open r ≡ true → (r ≡ get_health) ⊎ ((client : ℕ) × (r ≡ open_stream client))
open-cases get_health h = inl refl
open-cases (open_stream client) h = inr (client, refl)
open-cases _ h = cc

module _ (codec : Codec) {Size : Type 0} (megabytes : ℕ → Size) (strip : String → String)
    (int : String → Option ℤ) (str : ℕ → String) {Pattern : Type 0}
    (compile : String → Option Pattern) (loads : String → Option Fields)
    (dumps : Fields → String) where
  gated-refused :
      (v : Verdict) (now : ℕ) (r : Request)
      → v ≢ granted
      → (reply : Reply Size) × ((s : Site)
          → gated codec megabytes strip int str compile loads dumps v now r s ≡ (reply, s))
  gated-refused granted now r h = absurd (h refl)
  gated-refused auth_required now r h = (unauthorized "auth-required", λ s. refl)
  gated-refused auth_invalid now r h = (unauthorized "auth-invalid", λ s. refl)
  gated-refused file_not_found now r h = (failed_reading, λ s. refl)

  record Same (now : ℕ) (r : Request) (s t : Site) (a b : Reply Size × Site) : Type 0 where
    reply : a.0 ≡ b.0
    alike : Alike a.1 b.1
    unharmed : Unharmed s a.1

  Same-route :
      (now : ℕ) (r : Request) (s t : Site)
      → is_open r ≡ true
      → Alike s t
      → Same now r s t
          (route codec megabytes strip int str compile loads dumps now r s)
          (route codec megabytes strip int str compile loads dumps now r t)
  unfolding route snapshot
  Same-route now r s t h same = elim (open-cases r h) [
    | inl e ↦ rw e (record {
      reply = rw same.health refl;
      alike = record { token = same.token; health = rw same.health refl };
      unharmed = record {
        ingest = refl;
        archive = refl;
        patterns = refl;
        token = refl;
        config = refl;
      };
    })
    | inr (client, e) ↦ rw e (record {
      reply = refl;
      alike = record { token = same.token; health = same.health };
      unharmed = record {
        ingest = refl;
        archive = refl;
        patterns = refl;
        token = refl;
        config = refl;
      };
    })
  ]

  Same-gated :
      (v : Verdict) (now : ℕ) (r : Request) (s t : Site)
      → v ≢ granted
      → Alike s t
      → Same now r s t
          (gated codec megabytes strip int str compile loads dumps v now r s)
          (gated codec megabytes strip int str compile loads dumps v now r t)
  Same-gated v now r s t out same =
      let (reply, refuses) = gated-refused v now r out in
      rw (refuses s, refuses t) (record { reply = refl; alike = same; unharmed = Unharmed-refl s })

  Same-handle :
      (creds : Option HttpBasicCredentials) (now : ℕ) (r : Request) (s t : Site)
      → require_admin strip true creds s.token_file ≢ granted
      → Alike s t
      → Same now r s t
          (handle codec megabytes strip int str compile loads dumps true creds now r s)
          (handle codec megabytes strip int str compile loads dumps true creds now r t)
  unfolding handle
  Same-handle creds now r s t out same = elim (Bool-cases (is_open r)) [
    | inl free ↦ rw free (Same-route now r s t free same)
    | inr closed ↦
        let admin = require_admin strip true creds in
        let verdict : admin t.token_file ≡ admin s.token_file = ap admin (sym same.token) in
        rw (closed, verdict) (Same-gated (admin s.token_file) now r s t out same)
  ]

  -- Where authentication is required: requests in any order, none of whose credentials the admin's
  -- token lets in. The replies are the same whatever the database, the patterns, the archive and the
  -- configuration hold, and none of these, nor the token, changes. What the websocket sends after it
  -- has been accepted is not a reply here.
  pub serve_outsider :
      (rs : List (Option HttpBasicCredentials × ℕ × Request)) (s t : Site)
      → All (λ q. require_admin strip true q.0 s.token_file ≢ granted) rs
      → Alike s t
      → ((serve codec megabytes strip int str compile loads dumps true rs s).0
          ≡ (serve codec megabytes strip int str compile loads dumps true rs t).0)
        × Unharmed s (serve codec megabytes strip int str compile loads dumps true rs s).1
  unfolding serve
  serve_outsider [] s t out same = (refl, Unharmed-refl s)
  serve_outsider ((creds, now, r) ∷ rs) s t (here, later) same =
      let a = handle codec megabytes strip int str compile loads dumps true creds now r s in
      let b = handle codec megabytes strip int str compile loads dumps true creds now r t in
      let step = Same-handle creds now r s t here same in
      let (replies, kept) = serve_outsider rs a.1 b.1 (rw step.unharmed.token later) step.alike in
      (rw (step.reply, replies) refl, Unharmed-trans s a.1 _ step.unharmed kept)
