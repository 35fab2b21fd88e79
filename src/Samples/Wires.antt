-- ===== src/Samples/Wires.antt =====
-- Streams as the origins that they carry, and a scheduler as a list of tasks behind the forwarding
-- one.
use proxyengine.Base.{
  ℕ, suc, zero, ◌<◌, ◌≡◌, refl, Bool, true, false, ◌&&◌, ◌||◌, Option, some, none, List, [], ◌∷◌,
  ◌++◌, ok, length, get_elem?, ltb, lt→ltb, if◌then◌else◌,
}
use proxyengine.Wiring.{
  Device, Origin, same_device, is_device, is_queue, is_group, Streams, PipelineId, pipeline_id,
  Wired, wire,
}
use proxyengine.Wiring.Laws.{Connected, wire-Connected}
use proxyengine.Samples.{order, store, ops}
use proxyengine.Samples.Wheels.{wheel}

abbrev Sent : Type 0
Sent = Origin → Device → Bool

record Running : Type 0 where
  first : Option Sent
  others : List Sent

abbrev running : Running → ℕ → Option Sent
running s zero = s.first
running s (suc i) = get_elem? s.others i

last_place : (ts : List Sent) (t : Sent) → get_elem? (ts ++ t ∷ []) (length ts) ≡ some t
last_place [] t = refl
last_place (x ∷ ts) t = last_place ts t

kept_place :
    (ts : List Sent) (t : Sent) (i : ℕ) (old : Sent)
    → get_elem? ts i ≡ some old
    → get_elem? (ts ++ t ∷ []) i ≡ some old
kept_place [] t i old e = absurd (none_some e)
  where
    none_some : none ≡ some old → ⊥
    none_some e = cc
kept_place (x ∷ ts) t zero old e = e
kept_place (x ∷ ts) t (suc i) old e = kept_place ts t i old e

kept :
    (s : Running) (t : Sent) (i : ℕ) (old : Sent)
    → running s i ≡ some old
    → running (record s { others = s.others ++ t ∷ [] }) i ≡ some old
kept s t zero old e = e
kept s t (suc i) old e = kept_place s.others t i old e

abbrev group_at : ℕ × (Origin → Bool) → ℕ → Option (Origin → Bool)
group_at gs g = if ltb g gs.0 then some (is_group g) else none

group_there : (n g : ℕ) (b : Origin → Bool) → g < n → group_at (n, b) g ≡ some (is_group g)
group_there n g b h = rw (lt→ltb _ _ h) refl

instance abbrev streams : Streams
streams = record {
  Stream = Origin → Bool;
  Task = Sent;
  Groups = ℕ × (Origin → Bool);
  Scheduler = Running;
  receive_batch = is_device;
  consumer = is_queue;
  set_urgent = λ b. b;
  merge_auto = λ b c o. b o || c o;
  drop = λ b o. false;
  send = λ b d o e. b o && same_device d e;
  tick_generator = λ q o d. false;
  group_by = λ n b s id. ((n, b), s);
  get_group = group_at;
  add_runnable = λ s i t. record s { first = some t };
  install_task = λ s t. (suc (length s.others), record s { others = s.others ++ t ∷ [] });
  uuid = 0;
  uuid_l4groupby = 0;
  task = running;
  add_task = λ s t. refl;
  installed_task = λ s t. last_place s.others t;
  install_keeps = kept;
  group_keeps = λ n b s id i old e. e;
  carries = λ b. b;
  grouping = λ gs. gs.1;
  sends = λ t. t;
  carries_device = λ d o. refl;
  carries_queue = λ q o. refl;
  carries_urgent = λ b o. refl;
  carries_merged = λ b c o. refl;
  carries_dropped = λ b o. refl;
  grouping_lem = λ n b s id o. refl;
  group_of = λ n b s id g h. (is_group g, group_there n g b h, λ o. refl);
  sends_lem = λ b d e o. refl;
}

abbrev id : PipelineId
id = pipeline_id 2 0 1

abbrev idle : Running
idle = record { first = none; others = [] }

wire-Connected_example : (w : Wired) × (wire (λ m. true) id idle ≡ ok w) × Connected id w
wire-Connected_example = wire-Connected (λ m. true) id (λ m. refl) idle
