-- ===== src/Http/Server/Idle.antt =====
-- The timeout of idle connections.
use c_cloud_storage.Prelude.{
  ℕ, ◌<◌, ◌≡◌, ap, ◌∙◌, if_else, true, Option, none, arith, ltb, if_then, Bool-cases, inl, inr,
}
use c_cloud_storage.Tcp.Connection.{Connection, is_closed, handle_close}
use c_cloud_storage.Tcp.Connection.Closing.{Reach, Reach-last_active_time}
use c_cloud_storage.Http.Server.{active_close_conn}

handle_close-closed : (c : Connection) → is_closed (handle_close c).state ≡ true
unfolding handle_close
handle_close-closed c = elim (Bool-cases (is_closed c.state)) [
  | inl e ↦ ap (λ (k : Connection). is_closed k.state) (if_then _ _ e) ∙ e
  | inr e ↦ ap (λ (k : Connection). is_closed k.state) (if_else _ _ e)
]

-- Activity does not keep a connection open: whatever was sent and received since a connection was
-- made, the first call of `ActiveCloseConn` at a later time closes it and is not repeated.
pub active_close_conn-Reach :
    (now : ℕ) (c d : Connection)
    → Reach c d
    → c.last_active_time < now
    → (is_closed (active_close_conn now d).0.state ≡ true) × ((active_close_conn now d).1 ≡ none)
unfolding active_close_conn
active_close_conn-Reach now c d r late =
    let late_too : ltb d.last_active_time now ≡ true =
      ground (arith, Reach-last_active_time c d r, late) in
    (
      ap (λ (p : Connection × Option ℕ). is_closed p.0.state) (if_then _ _ late_too)
          ∙ handle_close-closed d,
      ap (λ (p : Connection × Option ℕ). p.1) (if_then _ _ late_too),
    )
