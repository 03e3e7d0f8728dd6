-- ===== src/Handshake/Ids.antt =====
-- The id that a worker is addressed by, and back.
use Prim.Native.Char.{code}
use algo_trading_broker.Prelude.{
  ◌==◌, Bool, not, ◌&&◌, inl, inr, Bool-cases, All, string_eq, String, ◌≡◌, refl, ap, Option, none,
  some, beq_refl, nat_eq,
}
use algo_trading_broker.Accounts.{Market}
use algo_trading_broker.Handshake.Settings.{AccountSettings, push_worker_settings_update}
use algo_trading_broker.Handshake.{
  append, strip_prefix, worker_prefix, compose_worker_id, decompose_worker_id,
}

strip_prefix-append : (p s : String) → strip_prefix p (append p s) ≡ some s
unfolding strip_prefix
strip_prefix-append String.[] s = refl
strip_prefix-append (String.◌∷◌ c p) s = rw (beq_refl (code c)) (strip_prefix-append p s)

-- The bare id that a worker id was composed of is what decomposing it gives back, for every
-- market, gateway and account.
pub decompose-compose_worker_id :
    (m : Market) (gateway account_id : String)
    → decompose_worker_id (compose_worker_id m gateway account_id) m gateway ≡ account_id
unfolding decompose_worker_id compose_worker_id
decompose-compose_worker_id m gateway account_id =
    let worker = append (worker_prefix m gateway) account_id in
    ap (λ (found : Option String). elim found [ none ↦ worker | some rest ↦ rest ])
      (strip_prefix-append (worker_prefix m gateway) account_id)

-- A push reaches one worker at most, whose id decomposes to the account that it is about.
pub push-decompose :
    (up : Bool) (m : Market) (gateway account_id : String) (s : AccountSettings)
    → All
        (λ x. decompose_worker_id x.0 m gateway ≡ account_id)
        (push_worker_settings_update up m (some gateway) account_id s)
unfolding push_worker_settings_update
push-decompose up m gateway account_id s = elim (Bool-cases (not (gateway == "") && up)) [
  | inl e ↦ rw e (decompose-compose_worker_id m gateway account_id, tt)
  | inr e ↦ rw e tt
]
