-- ===== src/Web/Stream/Latest.antt =====
-- What a subscriber of src/ai_ha/web/routes/stream.py finds in its queue.
use ai_home_assistant.Prelude.{
  ℕ, suc, ◌-◌, ◌≤◌, some, List, [], ◌∷◌, ◌++◌, ◌≡◌, refl, ap, ◌∙◌, sym, arith, length, drop, nat_eq,
  append-nil, append_assoc, length-append, map_option, Bool-cases, inl, inr, leb, map,
}
use ai_home_assistant.Prelude.Dict.{Dict, get}
use ai_home_assistant.Web.Stream.{full, offer, publish, publish_all}

-- The last `size` elements.
abbrev pub latest {ℓ} : {A : Type ℓ} → ℕ → List A → List A
latest size xs = drop (length xs - size) xs

module _ {E : Type 0} where
  get-map :
      (k : ℕ) (f : List E → List E) (d : Dict ℕ (List E))
      → get k (map (λ e. (e.0, f e.1)) d) ≡ map_option f (get k d)
  unfolding get
  get-map k f [] = refl
  get-map k f ((j, q) ∷ d) = ground (arith, get-map k f d)

  pub get-publish :
      (size : ℕ) (event : E) (queues : Dict ℕ (List E)) (client : ℕ) (q : List E)
      → get client queues ≡ some q
      → get client (publish size event queues) ≡ some (offer size event q)
  unfolding publish
  get-publish size event queues client q h =
      get-map client (offer size event) queues ∙ ap (map_option (offer size event)) h

  offer-bound :
      (n : ℕ) (event : E) (q : List E) → length q ≤ suc n → length (offer (suc n) event q) ≤ suc n
  unfolding offer full
  offer-bound n event [] h = ground arith
  offer-bound n event (x ∷ q) h =
      ground (arith, length-append q (event ∷ []), length-append (x ∷ q) (event ∷ []))

  latest-cons : (n : ℕ) (x : E) (xs : List E) → n ≤ length xs → latest n (x ∷ xs) ≡ latest n xs
  latest-cons n x xs h =
      let one_more : suc (length xs) - n ≡ suc (length xs - n) = omega arith in rw one_more refl

  latest-short : (n : ℕ) (xs : List E) → length xs ≤ n → latest n xs ≡ xs
  latest-short n xs h = let none_left : length xs - n ≡ 0 = omega arith in rw none_left refl

  -- To offer an event is to append it and forget what is too old.
  latest-offer :
      (n : ℕ) (event : E) (q es : List E)
      → length q ≤ suc n
      → latest (suc n) (offer (suc n) event q ++ es) ≡ latest (suc n) (q ++ event ∷ es)
  unfolding offer full
  latest-offer n event [] es h = ground arith
  latest-offer n event (x ∷ q) es h = elim (Bool-cases (leb (suc n) (suc (length q)))) [
    | inl t ↦
        let sizes = length-append q (event ∷ es) in
        rw (t, append_assoc q (event ∷ []) es)
          (sym (latest-cons (suc n) x (q ++ event ∷ es) (ground arith)))
    | inr f ↦ rw (f, append_assoc q (event ∷ []) es) refl
  ]

  -- A subscriber whose queue held `q` finds, after any events are published, the newest of what was
  -- in the queue and what was published, oldest first: all of it if it fits, else the last `suc n`
  -- (the queue's size, which is not 0).
  pub publish_all-latest :
      (n : ℕ) (events : List E) (queues : Dict ℕ (List E)) (client : ℕ) (q : List E)
      → get client queues ≡ some q
      → length q ≤ suc n
      → get client (publish_all (suc n) events queues) ≡ some (latest (suc n) (q ++ events))
  unfolding publish_all
  publish_all-latest n [] queues client q h b = rw (append-nil q, latest-short (suc n) q b) h
  publish_all-latest n (e ∷ es) queues client q h b =
      publish_all-latest n es (publish (suc n) e queues) client (offer (suc n) e q)
        (get-publish (suc n) e queues client q h) (offer-bound n e q b)
      ∙ ap some (latest-offer n e q es b)
