-- ===== src/Program/Main/Tells.antt =====
-- The messages that statements of `main` send, on every way through them, panics included.
use proxyengine.Base.{
  ◌≡◌, refl, ap, ◌∙◌, Bool, true, false, List, [], ◌∷◌, ◌++◌, Result, ok, panic, if◌then◌else◌,
}
use mathlib.Core.List.{append_assoc}
use proxyengine.Program.Records.{ConData}
use proxyengine.Program.Effects.{
  MessageFrom, Act, installed, started, sent, slept, available_mbufs, completed_connections, wrote,
  used_cycles, Program, pure, lift, expect, ◌>>=◌,
}
use proxyengine.Program.Main.{mtx_send}

module _ ⦃C : ConData⦄ where
  abbrev pub messages : List Act → List MessageFrom
  messages [] = []
  messages (sent m ∷ as_) = m ∷ messages as_
  messages (installed _ _ _ _ ∷ as_) = messages as_
  messages (started ∷ as_) = messages as_
  messages (slept _ ∷ as_) = messages as_
  messages (available_mbufs ∷ as_) = messages as_
  messages (completed_connections _ _ ∷ as_) = messages as_
  messages (wrote _ ∷ as_) = messages as_
  messages (used_cycles _ _ ∷ as_) = messages as_

  -- `said` is a beginning of `all`.
  abbrev pub Prefix : List MessageFrom → List MessageFrom → Type 0
  Prefix said all = (more : List MessageFrom) × (said ++ more ≡ all)

  -- A statement that sends `all`: if it panics, it has sent a beginning.
  pub record Tells {A : Type 0} (all : List MessageFrom) (m : Program A) : Type 0 where
    pub begins : Prefix (messages m.0) all
    pub through : (a : A) → m.1 ≡ ok a → messages m.0 ≡ all

  messages-append : (as_ bs : List Act) → messages (as_ ++ bs) ≡ messages as_ ++ messages bs
  messages-append [] bs = refl
  messages-append (sent m ∷ as_) bs = ap (◌∷◌ m) (messages-append as_ bs)
  messages-append (installed _ _ _ _ ∷ as_) bs = messages-append as_ bs
  messages-append (started ∷ as_) bs = messages-append as_ bs
  messages-append (slept _ ∷ as_) bs = messages-append as_ bs
  messages-append (available_mbufs ∷ as_) bs = messages-append as_ bs
  messages-append (completed_connections _ _ ∷ as_) bs = messages-append as_ bs
  messages-append (wrote _ ∷ as_) bs = messages-append as_ bs
  messages-append (used_cycles _ _ ∷ as_) bs = messages-append as_ bs

  pub Tells-bind :
      {A B : Type 0} {all rest : List MessageFrom} (m : Program A) (next : A → Program B)
      → Tells all m
      → ((a : A) → Tells rest (next a))
      → Tells (all ++ rest) (m >>= next)
  unfolding ◌>>=◌
  Tells-bind {rest} (acts, panic) next t k =
      let (more, e) = t.begins in
      record {
        begins = (
          more ++ rest,
          (rw (← append_assoc (messages acts) more rest)
              (ap (λ (l : List MessageFrom). l ++ rest) e)),
        );
        through = λ a ran. cc;
      }
  Tells-bind {all} {rest} (acts, ok a) next t k =
      let (more, e) = (k a).begins in
      let both : messages (acts ++ (next a).0) ≡ all ++ messages (next a).0 =
        messages-append acts (next a).0
        ∙ ap (λ (l : List MessageFrom). l ++ messages (next a).0) (t.through a refl) in
      record {
        begins = (
          more,
          rw both (
              append_assoc all (messages (next a).0) more
              ∙ ap (λ (l : List MessageFrom). all ++ l) e),
        );
        through = λ b ran. both ∙ ap (λ (l : List MessageFrom). all ++ l) ((k a).through b ran);
      }

  pub Tells-expect : (b : Bool) → Tells [] (expect b)
  Tells-expect true = record { begins = ([], refl); through = λ a ran. refl }
  Tells-expect false = record { begins = ([], refl); through = λ a ran. refl }

  pub Tells-lift : {A : Type 0} (r : Result A) → Tells [] (lift r)
  Tells-lift r = record { begins = ([], refl); through = λ a ran. refl }

  pub Tells-silent : {A : Type 0} (m : Program A) → messages m.0 ≡ [] → Tells [] m
  Tells-silent m e = record { begins = ([], rw e refl); through = λ a ran. e }

  pub Tells-send : (w : MessageFrom → Bool) (m : MessageFrom) → Tells (m ∷ []) (mtx_send w m)
  Tells-send w m =
      Tells-bind (expect (w m)) _ (Tells-expect (w m))
        (λ _. record { begins = ([], refl); through = λ a ran. refl })

  pub Tells-when :
      (b : Bool) {all : List MessageFrom} (m : Program (Unit {0}))
      → Tells all m
      → Tells (if b then all else []) (if b then m else pure tt)
  Tells-when true m t = t
  Tells-when false m t = record { begins = ([], refl); through = λ a ran. refl }
