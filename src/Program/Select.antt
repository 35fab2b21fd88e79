-- ===== src/Program/Select.antt =====
-- What the program's callbacks do to a connection.
use native.Mathlib.Decide.{dec_lt}
use native.Mathlib.Nat.{add-mul-mod_self_right, mod_self, mod-eq_of_lt}
use proxyengine.Base.{
  sym, ℕ, zero, suc, ◌+◌, ◌-◌, ◌*◌, ◌%◌, ◌≤◌, ◌<◌, ◌≡◌, refl, ap, ◌∙◌, ◌⊎◌, inl, inr, Bool-cases,
  Option-cases, true, false, Option, none, some, List, [], ◌∷◌, arith, ok, panic, lt→ltb,
  le→ltb_not, length, get_elem?, get_elem?-total, get_elem?-lt, subst, unwrap, >>=-eq-ok,
}
use proxyengine.Base.Words.{u64_mod}
use proxyengine.Packet.{Pdu, Endpoint}
use proxyengine.Connection as Con
use proxyengine.Connection.{ProxyConnection}
use proxyengine.Forward.Handshake.{Selects}
use proxyengine.Client.Branches.{InRange}
use proxyengine.Client.Passing.{IsTame}
use proxyengine.Client.Recorded.{LeavesRecord}
use proxyengine.Program.{
  CData, is_target, find_target, f_by_payload, f_round_robbin, f_process_payload_c_s,
}

-- The first server of the list that is the one that `cdata` names, counted from `i`.
pub record IsFirst (cdata : CData) (i : ℕ) (servers : List Endpoint) (k : ℕ) : Type 0 where
  pub server : Endpoint
  pub at : ℕ
  pub place : k ≡ i + at
  pub there : get_elem? servers at ≡ some server
  pub matches : is_target cdata server ≡ true
  pub earlier :
      (j : ℕ) (other : Endpoint)
      → j < at
      → get_elem? servers j ≡ some other
      → is_target cdata other ≡ false

find_target-IsFirst :
    (cdata : CData) (i k : ℕ) (servers : List Endpoint)
    → find_target cdata i servers ≡ some k
    → IsFirst cdata i servers k
find_target-IsFirst cdata i k [] e = cc
find_target-IsFirst cdata i k (l ∷ ls) e = elim (Bool-cases (is_target cdata l)) [
  | inl here ↦ record {
    server = l;
    at = 0;
    place = ground (arith, e, here);
    there = refl;
    matches = here;
    earlier = λ j other lt _. absurd (ground (arith, lt));
  }
  | inr elsewhere ↦
      let f = find_target-IsFirst cdata (suc i) k ls (ground (arith, e, elsewhere)) in
      record {
        server = f.server;
        at = suc f.at;
        place = omega (arith, f.place);
        there = f.there;
        matches = f.matches;
        earlier = λ j. before_it j f;
      }
]
  where
    before_it :
        (j : ℕ) (f : IsFirst cdata (suc i) ls k) (other : Endpoint)
        → j < suc f.at
        → get_elem? (l ∷ ls) j ≡ some other
        → is_target cdata other ≡ false
    before_it zero f other lt found = ground (arith, found, e)
    before_it (suc j) f other lt found = f.earlier j other (omega (arith, lt)) found

find_target-none :
    (cdata : CData) (i : ℕ) (servers : List Endpoint)
    → find_target cdata i servers ≡ none
    → (j : ℕ) (other : Endpoint) → get_elem? servers j ≡ some other
    → is_target cdata other ≡ false
find_target-none cdata i [] e j other found = cc
find_target-none cdata i (l ∷ ls) e zero other found = ground (arith, e, found)
find_target-none cdata i (l ∷ ls) e (suc j) other found =
    find_target-none cdata (suc i) ls (ground (arith, e)) j other found

module _ (deserialize : List ℕ → Option CData) (servers : List Endpoint) where
  -- What `f_by_payload` finds: the first server that the payload names, or none, so that the
  -- connection stays as it was.
  abbrev pub Found : CData → ProxyConnection → ProxyConnection → Type 0
  Found cdata c c' =
      IsFirst cdata 0 servers c'.server_index
      ⊎ ((c' ≡ c)
          × ((j : ℕ) (other : Endpoint)
              → get_elem? servers j ≡ some other
              → is_target cdata other ≡ false))

  -- For at most 256 servers and a payload that deserializes, f_by_payload gives the connection the
  -- index of the first server with the IP address and the port that the payload names, and if
  -- there is none, it leaves the connection as it was; nothing but the index changes.
  pub f_by_payload_lem :
      (c : ProxyConnection) (p : Pdu) (cdata : CData)
      → length servers ≤ 256
      → c.payload_packet ≡ some p
      → deserialize p.payload ≡ some cdata
      → (c' : ProxyConnection) × (f_by_payload deserialize servers c ≡ ok c')
        × (c' ≡ record c { server_index = c'.server_index })
        × Found cdata c c'
  unfolding f_by_payload Con.set_server_index
  f_by_payload_lem c p cdata few waiting read = elim (Option-cases (find_target cdata 0 servers)) [
    | inl unknown ↦ (
      c,
      simp (waiting, read, unknown, f_by_payload),
      refl,
      inr (refl, find_target-none cdata 0 servers unknown),
    )
    | inr (k, found) ↦
        let f = find_target-IsFirst cdata 0 k servers found in
        let small : k % 256 ≡ k = omega (arith, f.place, get_elem?-lt servers f.at f.there, few) in
        (
          record c { server_index = k },
          simp (waiting, read, found, small, f_by_payload),
          refl,
          inl f,
        )
  ]

  -- The index is all that it sets, so that the connection's record stays where it is.
  pub f_by_payload-LeavesRecord : LeavesRecord (f_by_payload deserialize servers)
  unfolding f_by_payload Con.set_server_index
  f_by_payload-LeavesRecord c c' e =
      let (p, _, e₁) = >>=-eq-ok (unwrap c.payload_packet) _ e in
      let (cdata, _, e₂) = >>=-eq-ok (unwrap (deserialize p.payload)) _ e₁ in
      elim (Option-cases (find_target cdata 0 servers)) [
        | inl unknown ↦
            let same : c ≡ c' = ground (arith, unknown, e₂) in
            subst (λ k. k.detailed_c ≡ c.detailed_c) same refl
        | inr (k, found) ↦
            let same : record c { server_index = k % 256 } ≡ c' = ground (arith, found, e₂) in
            subst (λ k. k.detailed_c ≡ c.detailed_c) same refl
      ]

  -- For the proxy it is a callback that selects a server, on payloads that deserialize.
  pub f_by_payload-Selects :
      (p : Pdu) (c : ProxyConnection) (cdata : CData)
      → deserialize p.payload ≡ some cdata
      → InRange servers c
      → Selects (f_by_payload deserialize servers) servers p c
  unfolding f_by_payload Con.set_server_index
  f_by_payload-Selects p c cdata read (srv, chosen) =
      elim (Option-cases (find_target cdata 0 servers)) [
        | inl unknown ↦ record {
          con = record c { payload_packet = some p };
          returns = rw (read, f_by_payload) (rw unknown refl);
          edited = p;
          buffer = refl;
          header = refl;
          same = refl;
          server = srv;
          chosen = chosen;
        }
        | inr (k, found) ↦
            let f = find_target-IsFirst cdata 0 k servers found in
            let (srv', there) =
              get_elem?-total servers (k % 256)
                (omega (arith, f.place, get_elem?-lt servers f.at f.there)) in
            record {
              con = record c { payload_packet = some p; server_index = k % 256 };
              returns = rw (read, f_by_payload) (rw found refl);
              edited = p;
              buffer = refl;
              header = refl;
              same = refl;
              server = srv';
              chosen = there;
            }
      ]

  -- A payload that does not deserialize makes it panic.
  pub f_by_payload_panics :
      (c : ProxyConnection) (p : Pdu)
      → c.payload_packet ≡ some p
      → deserialize p.payload ≡ none
      → f_by_payload deserialize servers c ≡ panic
  unfolding f_by_payload
  f_by_payload_panics c p waiting unread = rw waiting (rw unread refl)

-- The payload callback changes nothing.
pub f_process_payload_c_s-IsTame : IsTame f_process_payload_c_s
unfolding f_process_payload_c_s
f_process_payload_c_s-IsTame c xs room = record {
  kept_con = record { port = refl; socket = refl; details = refl };
  client_same = refl;
  server_same = refl;
  slot = refl;
  index = refl;
}

-- The connections as a run of calls of `f_round_robbin` leaves them, from last server `last` on.
unfoldable pub robbin : ℕ → ℕ → List ProxyConnection → List ProxyConnection
robbin n last [] = []
robbin n last (c ∷ cs) =
    let selected = f_round_robbin n last c in selected.1 ∷ robbin n selected.0 cs

module _ (n : ℕ) (some_ : 0 < n) (few : n ≤ 256) where
  last_index : (n + (u64_mod - 1)) % u64_mod ≡ n - 1
  last_index = omega (arith, some_, few)

  next_up :
      (i : ℕ) (c : ProxyConnection)
      → i < n - 1
      → f_round_robbin n i c ≡ (suc i, record c { server_index = suc i })
  unfolding f_round_robbin Con.set_server_index
  next_up i c lt =
      let small : (i + 1) % 256 ≡ suc i = omega (arith, few, lt) in
      rw last_index (rw (lt→ltb i (n - 1) lt) (rw small refl))

  next_first :
      (i : ℕ) (c : ProxyConnection)
      → n - 1 ≤ i
      → f_round_robbin n i c ≡ (0, record c { server_index = 0 })
  unfolding f_round_robbin Con.set_server_index
  next_first i c le = rw last_index (rw (le→ltb_not i (n - 1) le) refl)

  -- The place of the server that the call after `k` others selects.
  abbrev chosen : ℕ → ℕ → ℕ
  chosen last k = (suc last + k) % n

  chosen_up : (last k : ℕ) → chosen (suc last) k ≡ chosen last (suc k)
  chosen_up last k = ap (λ i. i % n) (same last k)
    where
      same : (a b : ℕ) → suc (suc a) + b ≡ suc a + suc b
      same a b = omega arith

  chosen_first : (last k : ℕ) → n - 1 ≤ last → last < n → chosen 0 k ≡ chosen last (suc k)
  chosen_first last k le lt =
      let e : suc last + suc k ≡ suc 0 + k + 1 * n = omega (arith, le, lt) in
      sym (ap (λ i. i % n) e ∙ add-mul-mod_self_right (suc 0 + k) 1 n)

  chosen_here : (last : ℕ) → last < n - 1 → chosen last 0 ≡ suc last
  chosen_here last up =
      let e : suc last + 0 ≡ suc last = omega arith in
      ap (λ i. i % n) e ∙ mod-eq_of_lt (omega (arith, up))

  chosen_again : (last : ℕ) → n - 1 ≤ last → last < n → chosen last 0 ≡ 0
  chosen_again last le lt =
      let e : suc last + 0 ≡ n = omega (arith, le, lt) in ap (λ i. i % n) e ∙ mod_self n

  served :
      (i j : ℕ) (d c : ProxyConnection)
      → i ≡ j
      → some d ≡ some c
      → some (record d { server_index = i }) ≡ some (record c { server_index = j })
  served i j d c e found = let same : d ≡ c = cc in rw (e, same)

  robbin-from :
      (last k : ℕ) (cs : List ProxyConnection) (c : ProxyConnection)
      → last < n
      → get_elem? cs k ≡ some c
      → get_elem? (robbin n last cs) k ≡ some (record c { server_index = chosen last k })
  unfolding robbin
  robbin-from last k [] c lt found = cc
  robbin-from last zero (d ∷ cs) c lt found = elim (dec_lt last (n - 1)) [
    | yes up ↦
        rw (next_up last d up)
          (served (suc last) (chosen last 0) d c (sym (chosen_here last up)) found)
    | no over ↦
        rw (next_first last d (omega (arith, over)))
          (served 0 (chosen last 0) d c (sym (chosen_again last (omega (arith, over)) lt)) found)
  ]
  robbin-from last (suc k) (d ∷ cs) c lt found = elim (dec_lt last (n - 1)) [
    | yes up ↦ rw (next_up last d up) (
        robbin-from (suc last) k cs c (omega (arith, up)) found
        ∙ ap (λ i. some (record c { server_index = i })) (chosen_up last k))
    | no over ↦ rw (next_first last d (omega (arith, over))) (
        robbin-from 0 k cs c some_ found
        ∙ ap (λ i. some (record c { server_index = i }))
            (chosen_first last k (omega (arith, over)) lt))
  ]

  -- With 1 to 256 servers, a run of calls of f_round_robbin, from last server 0 on, gives each
  -- connection its server index in turn, over and over: the connection of the call after k others
  -- gets (k + 1) mod the number of servers, and is otherwise as it was.
  pub f_round_robbin_lem :
      (cs : List ProxyConnection) (k : ℕ) (c : ProxyConnection)
      → get_elem? cs k ≡ some c
      → get_elem? (robbin n 0 cs) k ≡ some (record c { server_index = (k + 1) % n })
  f_round_robbin_lem cs k c found =
      robbin-from 0 k cs c some_ found ∙ ap (λ i. some (record c { server_index = i % n })) (same k)
    where
      same : (j : ℕ) → 1 + j ≡ j + 1
      same j = omega arith
