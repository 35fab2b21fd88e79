-- ===== src/Record.antt =====
-- cmanager.rs, `Extension`: the server side's record of a connection, with room for seven states
-- and their time stamps.
pub mod Laws
use proxyengine.Base.{
  ℕ, suc, ◌+◌, ◌-◌, ◌*◌, ◌/◌, ◌%◌, Option, none, some, List, [], ◌∷◌, if◌then◌else◌, ltb, ◌==◌,
  get_elem?, set, take, replicate, Result, ok, panic, ◌>>=◌, unwrap,
}
use proxyengine.Base.Words.{u32_mod, u64_mod}
use proxyengine.Tcp.{TcpState, listen, ReleaseCause, unknown}

pub record Extension : Type 0 where
  pub s_stamps : List ℕ
  pub s_state : List TcpState
  pub s_state_count : ℕ
  pub s_release_cause : ReleaseCause

abbrev pub capacity : ℕ
capacity = 7

-- Storable::new
unfoldable pub new : Extension
new = record {
  s_stamps = replicate capacity 0;
  s_state = replicate capacity listen;
  s_state_count = 0;
  s_release_cause = unknown;
}

-- The stamp of a reading `tsc` of the cycle counter, in units of `factor` cycles since
-- `base_stamp`: a u64 difference, cut to a u32.
unfoldable pub stamp : ℕ → ℕ → ℕ → ℕ
stamp factor base_stamp tsc = (tsc + u64_mod - base_stamp) % u64_mod / factor % u32_mod

-- `factor` is netfcts::conrecord::TIME_STAMP_REDUCTION_FACTOR. An index past the arrays panics.
unfoldable pub push_state : ℕ → ℕ → ℕ → Extension → TcpState → Result Extension
unfolding stamp
push_state factor base_stamp tsc e state =
    if ltb e.s_state_count capacity
    then ok (record e {
      s_state = set e.s_state e.s_state_count state;
      s_stamps = set e.s_stamps e.s_state_count (stamp factor base_stamp tsc);
      s_state_count = e.s_state_count + 1;
    })
    else panic

unfoldable pub set_release_cause : Extension → ReleaseCause → Extension
set_release_cause e cause = record e { s_release_cause = cause }

unfoldable pub init : Extension → Extension
init e = record e { s_state_count = 0 }

-- `result[i + 1] = s_state[i]` for i below the count, behind a leading Listen.
unfoldable pub states : Extension → List TcpState
states e = listen ∷ take e.s_state_count e.s_state

unfoldable pub last_state : Extension → Result TcpState
last_state e =
    if e.s_state_count == 0 then ok listen else unwrap (get_elem? e.s_state (e.s_state_count - 1))

abbrev scaled : ℕ → Result ℕ → Result (Option ℕ)
scaled factor r = r >>= λ s. ok (some (s * factor))

unfoldable pub get_last_stamp : ℕ → Extension → Result (Option ℕ)
get_last_stamp factor e =
    if e.s_state_count == 0
    then ok none
    else scaled factor (unwrap (get_elem? e.s_stamps (e.s_state_count - 1)))

unfoldable pub get_first_stamp : ℕ → Extension → Result (Option ℕ)
get_first_stamp factor e =
    if ltb 0 e.s_state_count then scaled factor (unwrap (get_elem? e.s_stamps 0)) else ok none

unfoldable pub deltas_to_base_stamp : Extension → List ℕ
deltas_to_base_stamp e = if ltb 0 e.s_state_count then take e.s_state_count e.s_stamps else []
