-- ===== src/Intel/Signals/Weights.antt =====
-- The weights of the signals of src/bbagent/intel/signals.py.
use bugbounty_agent.Base.{
  ℕ, ◌≤◌, ◌<◌, ◌≡◌, refl, String, true, Option, none, some, List, [], ◌∷◌, leb, all, All,
  Option-cases, inl, inr, arith,
}
use bugbounty_agent.Intel.Tables.{Table, subdomain_tokens}
use bugbounty_agent.Intel.Signals.{
  Signal, get, weighed, subdomain_signal, subdomain_loop, subdomain_signals, labels,
}

get-le :
    (bound : ℕ) (tok : String) (table : Table String) {info : ℕ × String}
    → all (λ e. leb e.1 bound) table ≡ true
    → get tok table ≡ some info
    → info.0 ≤ bound
unfolding get all
get-le bound tok [] h e = cc e
get-le bound tok ((k, w, why) ∷ table) {info} h e =
    ground (arith, get-le bound tok table {info = info})

bounded : all (λ e. leb e.1 9) subdomain_tokens ≡ true
unfolding all subdomain_tokens
bounded = refl

abbrev pub IsRanked : Signal → Type 0
IsRanked s = (s.kind ≡ "subdomain") × (0 < s.weight) × (s.weight ≤ 9)

weighed-IsRanked :
    (seen : List String) (tok : String) (info : Option (ℕ × String)) {s : Signal}
    → ((i : ℕ × String) → info ≡ some i → i.0 ≤ 9)
    → weighed seen tok info ≡ some s
    → IsRanked s
unfolding weighed
weighed-IsRanked seen tok none {s} below e = cc e
weighed-IsRanked seen tok (some i) {s} below e = ground (arith, below i refl)

subdomain_signal-IsRanked :
    (seen : List String) (tok : String) {s : Signal}
    → subdomain_signal seen tok ≡ some s
    → IsRanked s
unfolding subdomain_signal
subdomain_signal-IsRanked seen tok e =
    weighed-IsRanked seen tok (get tok subdomain_tokens)
      (λ i found. get-le 9 tok subdomain_tokens bounded found) e

subdomain_loop-IsRanked : (seen toks : List String) → All IsRanked (subdomain_loop seen toks)
unfolding subdomain_loop
subdomain_loop-IsRanked seen [] = tt
subdomain_loop-IsRanked seen (tok ∷ toks) = elim (Option-cases (subdomain_signal seen tok)) [
  | inl e ↦ rw e (subdomain_loop-IsRanked seen toks)
  | inr (s, e) ↦
      rw e (subdomain_signal-IsRanked seen tok e, subdomain_loop-IsRanked (tok ∷ seen) toks)
]

-- Every signal of a host name is of the kind "subdomain", and its weight is from 1 to 9: the tokens
-- of weight 0 give none.
pub subdomain_signals-IsRanked : (host : String) → All IsRanked (subdomain_signals host)
unfolding subdomain_signals
subdomain_signals-IsRanked host = subdomain_loop-IsRanked [] (labels host)
