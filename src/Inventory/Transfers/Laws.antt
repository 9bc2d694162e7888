-- ===== src/Inventory/Transfers/Laws.antt =====
-- What the saga of a transfer preserves over all branches, also where it fails.
use detailing_studio.Prelude.{
  ℕ, ◌≡◌, refl, ◌∙◌, Bool, true, false, not, ◌&&◌, List, [], ◌∷◌, ◌==◌, any, Result-cases, inl, inr,
  All,
}
use detailing_studio.Inventory.Selection.{BatchSelectionStrategy, select_for_consumption}
use detailing_studio.Inventory.Stock.State.{Stock}
use detailing_studio.Inventory.Stock.Movement.{transfer_out, transfer_in}
use detailing_studio.Inventory.Stock.Conservation.{IsValid}
use detailing_studio.Inventory.Transfers.{
  Transfer, TransferLine, Warehouse, find_or_create, move_in, apply_line,
}
use detailing_studio.Inventory.Transfers.Rows.{
  total_of, found_key, both_saved, transfer_in-total, transfer_out-total, moved,
}

module _ (strategy : BatchSelectionStrategy) where
  -- The body of the loop moves goods between two branches: it leaves what all branches together hold of
  -- each SKU as it was, also where it fails, for two different branches and a valid stock to take from.
  pub apply_line_conserves :
      (k from_branch to_branch at now : ℕ) (line : TransferLine) (fresh : ℕ → ℕ) (w : Warehouse)
      → (from_branch == to_branch) ≡ false
      → IsValid (find_or_create line.sku_id from_branch line.quantity.unit now w.stocks)
      → total_of k
          (apply_line
            (select_for_consumption strategy)
            from_branch
            to_branch
            at
            now
            line
            fresh
            w).0.stocks
        ≡ total_of k w.stocks
  unfolding apply_line move_in
  apply_line_conserves k from_branch to_branch at now line fresh w apart v =
      let unit = line.quantity.unit in
      let s = find_or_create line.sku_id from_branch unit now w.stocks in
      let t = find_or_create line.sku_id to_branch unit now w.stocks in
      elim (Result-cases
        (transfer_out line.quantity to_branch (select_for_consumption strategy) at s)) [
          | inr (e, failed) ↦ rw failed refl
          | inl ((s', d), went) ↦ elim (Result-cases (transfer_in d at fresh t)) [
            | inr (e, failed) ↦ rw (went, failed) refl
            | inl (t', came) ↦
                rw (went, came)
                  (let (out, s_sku, s_branch) =
                      transfer_out-total strategy line.quantity to_branch at s s' d v went in
                    let (in_, t_sku, t_branch) = transfer_in-total d at fresh t t' came in
                    let (a, a_branch) = found_key line.sku_id from_branch unit now w.stocks in
                    let (b, b_branch) = found_key line.sku_id to_branch unit now w.stocks in
                    moved strategy k s t s' t' d line.sku_id _ (total_of k w.stocks) out in_ a b
                      (s_sku ∙ a) (t_sku ∙ b)
                      (both_saved k line.sku_id from_branch to_branch unit now
                        (record s' { events = [] }) (record t' { events = [] }) w.stocks apart
                        (s_sku ∙ a) (s_branch ∙ a_branch) (t_sku ∙ b) (t_branch ∙ b_branch)))
          ]
        ]

  -- No SKU stands on two lines.
  abbrev pub distinct_skus : List TransferLine → Bool
  distinct_skus [] = true
  distinct_skus (line ∷ lines) =
      not (any (λ l. line.sku_id == l.sku_id) lines) && distinct_skus lines

  -- The stock that each line takes from is valid.
  abbrev pub Sources : ℕ → ℕ → List Stock → List TransferLine → Type 0
  Sources from_branch now ss =
      All (λ line. IsValid (find_or_create line.sku_id from_branch line.quantity.unit now ss))
