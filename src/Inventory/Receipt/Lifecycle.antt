-- ===== src/Inventory/Receipt/Lifecycle.antt =====
-- The life of a receipt, over all its methods.
use detailing_studio.Prelude.{
  ℕ, ◌≡◌, refl, ◌∙◌, arith, Bool, true, false, not, ◌&&◌, Option, none, some, String, Result, ok,
}
use detailing_studio.Inventory.Receipt.{
  Receipt, ReceiptLine, ReceiptStatus, ReceiptError, draft, no_lines, create, add_line, update_line,
  remove_line, attach_invoice_file, post, cancel,
}

pub data Command : Type 0 where
  adds : ReceiptLine → ℕ → Command
  updates : ℕ → ReceiptLine → ℕ → Command
  removes : ℕ → ℕ → Command
  attaches : String → ℕ → Command
  posts : ℕ → ℕ → Command
  cancels : String → ℕ → Command

unfoldable pub run_command : Command → Receipt → Result ReceiptError Receipt
unfolding add_line update_line remove_line attach_invoice_file post cancel
run_command (adds line at) r = add_line line at r
run_command (updates id line at) r = update_line id line at r
run_command (removes id at) r = remove_line id at r
run_command (attaches url at) r = attach_invoice_file url at r
run_command (posts by at) r = post by at r
run_command (cancels reason at) r = cancel reason at r

pub data Reach (r : Receipt) : Receipt → Type 0 where
  here : Reach r r
  next : {s t : Receipt} (c : Command) → Reach r s → run_command c s ≡ ok t → Reach r t

abbrev pub is_draft : ReceiptStatus → Bool
is_draft draft = true
is_draft s = false

abbrev pub is_given : Option ℕ → Bool
is_given none = false
is_given (some n) = true

-- A receipt that is no draft has lines; it has the time and the author of its posting just where it is
-- no draft.
pub record IsValid (r : Receipt) : Type 0 where
  pub has_lines : (not (is_draft r.status) && no_lines r.lines) ≡ false
  pub posted_time : is_given r.posted_at ≡ not (is_draft r.status)
  pub posted_author : is_given r.posted_by ≡ not (is_draft r.status)

run_command-IsValid :
    (c : Command) (r : Receipt) {s : Receipt} → run_command c r ≡ ok s → IsValid r → IsValid s
unfolding run_command
run_command-IsValid (adds line at) r e v = ground arith
run_command-IsValid (updates id line at) r e v = ground arith
run_command-IsValid (removes id at) r e v = ground arith
run_command-IsValid (attaches url at) r e v = ground arith
run_command-IsValid (posts by at) r e v = ground arith
run_command-IsValid (cancels reason at) r e v = ground arith

reach-IsValid : {r s : Receipt} → Reach r s → IsValid r → IsValid s
reach-IsValid here v = v
reach-IsValid (next c h e) v = run_command-IsValid c _ e (reach-IsValid h v)

-- After any successful calls on a new receipt, it has lines unless it is a draft, and it has the time
-- and the author of its posting just where it is no draft.
pub receipt_history-IsValid :
    (id supplier branch by now : ℕ) (number : Option String) (date : Option ℕ) {r : Receipt}
    → Reach (create id supplier branch by now number date) r
    → IsValid r
unfolding create
receipt_history-IsValid id supplier branch by now number date h =
    reach-IsValid h (record { has_lines = refl; posted_time = refl; posted_author = refl })

frozen_step :
    (c : Command) (r : Receipt) {s : Receipt}
    → run_command c r ≡ ok s
    → is_draft r.status ≡ false
    → (is_draft s.status ≡ false) × (s.lines ≡ r.lines) × (s.posted_at ≡ r.posted_at)
unfolding run_command
frozen_step (adds line at) r e h = ground arith
frozen_step (updates id line at) r e h = ground arith
frozen_step (removes id at) r e h = ground arith
frozen_step (attaches url at) r e h = ground arith
frozen_step (posts by at) r e h = ground arith
frozen_step (cancels reason at) r e h = ground arith

-- Whatever is called on a receipt that is no draft, its lines and the time of its posting stay, and it
-- is never a draft again.
pub posted_stays :
    {r s : Receipt}
    → Reach r s
    → is_draft r.status ≡ false
    → (is_draft s.status ≡ false) × (s.lines ≡ r.lines) × (s.posted_at ≡ r.posted_at)
posted_stays here h = (h, refl, refl)
posted_stays (next c k e) h =
    let (before, lines, time) = posted_stays k h in
    let (after, lines', time') = frozen_step c _ e before in (after, lines' ∙ lines, time' ∙ time)
