-- ===== src/Proxy/Shutdown.antt =====
-- proxy.rs: `ctrl_c_handler`, which calls its function at the first interrupt.
use frl_online_proxy.Prelude.{◌≡◌, ℕ, zero, suc, ◌+◌, Bool, true, false, if◌then◌else◌, arith}

-- Whether the function is still there to be called, and how often it has been.
pub record Handler : Type 0 where
  pub call_once : Bool
  pub calls : ℕ

-- `ctrl_c_handler(f)`
abbrev pub ctrl_c_handler : Handler
ctrl_c_handler = record { call_once = true; calls = 0 }

-- The closure that is run at an interrupt: `call_once.lock().unwrap().take()`.
unfoldable pub interrupt : Handler → Handler
interrupt h = if h.call_once then record { call_once = false; calls = h.calls + 1 } else h

abbrev pub interrupts : ℕ → Handler → Handler
interrupts zero h = h
interrupts (suc n) h = interrupts n (interrupt h)

later : (n : ℕ) (h : Handler) → h.call_once ≡ false → interrupts n h ≡ h
unfolding interrupt
later zero h e = ground arith
later (suc n) h e = ground (arith, later n h e)

-- However often the program is interrupted, the shutdown has been started once, and not before the
-- first interrupt.
interrupts-once : (n : ℕ) → (interrupts n ctrl_c_handler).calls ≡ (elim n [ zero ↦ 0 | suc m ↦ 1 ])
unfolding interrupt
interrupts-once zero = ground arith
interrupts-once (suc n) = ground (arith, later n (record { call_once = false; calls = 1 }))
