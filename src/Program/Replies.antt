-- ===== src/Program/Replies.antt =====
-- bin.rs, the loop of `main` that collects the pipelines' replies at the end, until none comes
-- within a second. A HashMap is a function from the number of the pipeline.
use proxyengine.Base.{
  ℕ, ◌≡◌, refl, ap, ◌∙◌, Bool, true, false, Option, none, some, List, [], ◌∷◌, ◌==◌, if◌then◌else◌,
}

-- What `recv_timeout` gives: a pipeline's counters of the client and of the server side, its
-- records, if there are any, another message, or an error.
pub data Received (Counter Store : Type 0) : Type 0 where
  counter : ℕ → Counter → Counter → Received Counter Store
  c_records : ℕ → Option Store → Received Counter Store
  illegal : Received Counter Store
  timed_out : Received Counter Store
  disconnected : Received Counter Store

pub record Collected (Counter Store : Type 0) : Type 0 where
  pub tcp_counters_c : ℕ → Option Counter
  pub tcp_counters_s : ℕ → Option Counter
  pub con_records : ℕ → Option Store

-- HashMap::insert
abbrev pub put {ℓ} : {A : Type ℓ} → ℕ → A → (ℕ → Option A) → ℕ → Option A
put k a m j = if k == j then some a else m j

module _ (Counter Store : Type 0) where
  -- Records that are None are an illegal message.
  unfoldable pub collect :
      List (Received Counter Store) → Collected Counter Store → Collected Counter Store
  collect [] r = r
  collect (counter pipeline_id c s ∷ rest) r = collect rest (record r {
    tcp_counters_c = put pipeline_id c r.tcp_counters_c;
    tcp_counters_s = put pipeline_id s r.tcp_counters_s;
  })
  collect (c_records pipeline_id (some recs) ∷ rest) r =
      collect rest (record r { con_records = put pipeline_id recs r.con_records })
  collect (c_records pipeline_id none ∷ rest) r = collect rest r
  collect (illegal ∷ rest) r = collect rest r
  collect (timed_out ∷ rest) r = r
  collect (disconnected ∷ rest) r = r

  -- The newest reply about one pipeline before the first error, by what it says of it.
  abbrev pub newest :
      {A : Type 0}
      → (Received Counter Store → Option A)
      → List (Received Counter Store)
      → Option A
      → Option A
  newest says [] before = before
  newest says (timed_out ∷ rest) before = before
  newest says (disconnected ∷ rest) before = before
  newest says (illegal ∷ rest) before = newest says rest before
  newest says (counter p c s ∷ rest) before =
      newest says rest (elim (says (counter p c s)) [ none ↦ before | some a ↦ some a ])
  newest says (c_records p o ∷ rest) before =
      newest says rest (elim (says (c_records p o)) [ none ↦ before | some a ↦ some a ])

  -- A pipeline's counters in a message, and its records.
  abbrev pub of_client : ℕ → Received Counter Store → Option Counter
  of_client j (counter p c s) = if p == j then some c else none
  of_client j _ = none

  abbrev pub of_server : ℕ → Received Counter Store → Option Counter
  of_server j (counter p c s) = if p == j then some s else none
  of_server j _ = none

  abbrev pub records_of : ℕ → Received Counter Store → Option Store
  records_of j (c_records p (some recs)) = if p == j then some recs else none
  records_of j _ = none

  choice :
      {A : Type 0} (b : Bool) (a : A) (o : Option A)
      → (if b then some a else o) ≡ elim (if b then some a else none) [ none ↦ o | some d ↦ some d ]
  choice true a o = refl
  choice false a o = refl

  -- Of every pipeline the loop keeps the newest counters and the newest records that came before
  -- the first time-out or error, and what it had before if none came.
  pub collect-newest :
      (ms : List (Received Counter Store)) (r : Collected Counter Store) (j : ℕ)
      → ((collect ms r).tcp_counters_c j ≡ newest (of_client j) ms (r.tcp_counters_c j))
        × ((collect ms r).tcp_counters_s j ≡ newest (of_server j) ms (r.tcp_counters_s j))
        × ((collect ms r).con_records j ≡ newest (records_of j) ms (r.con_records j))
  unfolding collect
  collect-newest [] r j = (refl, refl, refl)
  collect-newest (timed_out ∷ rest) r j = (refl, refl, refl)
  collect-newest (disconnected ∷ rest) r j = (refl, refl, refl)
  collect-newest (illegal ∷ rest) r j = collect-newest rest r j
  collect-newest (c_records p none ∷ rest) r j = collect-newest rest r j
  collect-newest (c_records p (some recs) ∷ rest) r j =
      let (c, s, k) = collect-newest rest (record r { con_records = put p recs r.con_records }) j in
      (c, s, k ∙ ap (newest (records_of j) rest) (choice (p == j) recs (r.con_records j)))
  collect-newest (counter p of_c of_s ∷ rest) r j =
      let (c, s, k) =
        collect-newest rest
          (record r {
            tcp_counters_c = put p of_c r.tcp_counters_c;
            tcp_counters_s = put p of_s r.tcp_counters_s;
          })
          j in
      (
        c ∙ ap (newest (of_client j) rest) (choice (p == j) of_c (r.tcp_counters_c j)),
        s ∙ ap (newest (of_server j) rest) (choice (p == j) of_s (r.tcp_counters_s j)),
        k,
      )
