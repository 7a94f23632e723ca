-- ===== src/Adapters/Calls/Piped.antt =====
-- Calls of withClassifiedRetry whose closure reads from a pipe: the reader stands beside the world.
use sylos_fs.Base.{Call}
use sylos_fs.Credentials.Retry.{Env}

abbrev pub swapped : {A B E R : Type 0} → Call (A × B) E R → Call (B × A) E R
swapped call (b, a) = let (r, (a', b')) = call (a, b) in (r, (b', a'))

-- The retry's surroundings, beside the reader.
abbrev pub env_with : {R W E : Type 0} → Env E W → Env E (W × R)
env_with env = record {
  ctx_err = λ s. env.ctx_err s.0;
  op = λ s. let (e, w) = env.op s.0 in (e, (w, s.1));
  sleep_ctx = λ d s. let (e, w) = env.sleep_ctx d s.0 in (e, (w, s.1));
  now = λ s. env.now s.0;
  tracker = λ s. env.tracker s.0;
  put_tracker = λ t s. (env.put_tracker t s.0, s.1);
  is_needs_refresh = env.is_needs_refresh;
}
