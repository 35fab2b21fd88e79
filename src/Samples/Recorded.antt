-- ===== src/Samples/Recorded.antt =====
-- The theorems on a connection's record, on a new record.
use proxyengine.Base.{ℕ, ◌+◌, ◌<◌, ◌≡◌, List, [], ◌∷◌, map, replicate, arith, ok, panic}
use proxyengine.Tcp.{TcpState, listen, syn_received, established, fin_wait1, closed}
use proxyengine.Record as Ext
use proxyengine.Record.{Extension, init, states, deltas_to_base_stamp}
use proxyengine.Record.Laws.{
  IsValid, push_all, stamps, new-IsValid, push_all-states, push_all_overflow,
}

abbrev whole_life : List (ℕ × TcpState)
whole_life = (110, syn_received) ∷ (120, established) ∷ (150, fin_wait1) ∷ (160, closed) ∷ []

-- A FIN that is sent eight times.
abbrev eight_fins : List (ℕ × TcpState)
eight_fins = replicate 8 (200, fin_wait1)

push_all-states_example :
    (e' : Extension) × (push_all 10 100 (init Ext.new) whole_life ≡ ok e')
    × IsValid e'
    × (states e' ≡ listen ∷ map (λ p. p.1) whole_life)
    × (deltas_to_base_stamp e' ≡ stamps 10 100 whole_life)
push_all-states_example = push_all-states 10 100 whole_life Ext.new new-IsValid (omega arith)

over : 7 < Ext.new.s_state_count + 8
unfolding Ext.new
over = omega arith

push_all_overflow_example : push_all 10 100 Ext.new eight_fins ≡ panic
push_all_overflow_example = push_all_overflow 10 100 eight_fins Ext.new new-IsValid over
