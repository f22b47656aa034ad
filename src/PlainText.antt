-- ===== src/PlainText.antt =====
-- src/handler/pubsub.c: `format_msg` and `process_plain_text`, which cut what a client sent into
-- lines and give each to `model_process`, the parameter `process`. That function writes a terminator
-- into its own line at most, which no later round reads. `strlen` reads to the first zero byte, a
-- fault if there is none in the block.
pub mod Lines
mod Tests
use zeroserv.Prelude.{
  ℕ, zero, suc, ◌+◌, ◌-◌, Bool, ◌||◌, List, [], ◌∷◌, ◌++◌, Option, none, some, leb, ◌==◌,
  if◌then◌else◌, take, drop, Run, ok, fault, out_of_bounds, ◌>>=◌, to_size,
}
use zeroserv.Buffer.{Buffer, buffer_remain_read, buffer_empty, buffer_reset}

abbrev pub line_feed : ℕ
line_feed = 10

abbrev pub carriage_return : ℕ
carriage_return = 13

unfoldable pub format_msg : ℕ → List ℕ → List ℕ
format_msg zero msg = msg
format_msg (suc size) [] = []
format_msg (suc size) (c ∷ msg) =
    (if (c == line_feed) || (c == carriage_return) then 0 else c) ∷ format_msg size msg

unfoldable pub strlen : List ℕ → Run ℕ
strlen [] = fault out_of_bounds
strlen (c ∷ s) = if c == 0 then ok 0 else (do n ← strlen s; ok (suc n))

module _ {ℓ} {App : Type ℓ} (process : List ℕ → App → Run (ℕ × App)) where
  -- The loop with `left` bytes to go, `len - count`, from the pointer on; on fuel.
  unfoldable pub frame_loop : ℕ → ℕ → List ℕ → ℕ → App → Run (Option (ℕ × App))
  frame_loop zero left s ret app = if left == 0 then ok (some (ret, app)) else ok none
  frame_loop (suc fuel) left s ret app = if left == 0 then ok (some (ret, app)) else do
    req_len ← strlen s
    (ret', app') ← process (take req_len s) app
    let inc = if leb (req_len + 2) left then req_len + 2 else left
    frame_loop fuel (left - inc) (drop inc s) ret' app'

  -- The increments add up to `len`, so the read position ends at the write position.
  unfoldable pub process_plain_text : Buffer → App → Run (Option (ℕ × Buffer × App))
  unfolding frame_loop
  process_plain_text ib app = do
    let len = to_size (buffer_remain_read ib)
    let msg = format_msg len (drop ib.curr ib.buff)
    let after : Buffer = record ib { buff = take ib.curr ib.buff ++ msg; curr = ib.curr + len }
    out ← frame_loop len len msg 0 app
    elim out [
      | none ↦ ok none
      | some (ret, app') ↦
          ok (some (ret, (if buffer_empty after then buffer_reset after else after), app'))
    ]
