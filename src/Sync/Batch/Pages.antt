-- ===== src/Sync/Batch/Pages.antt =====
-- How the items of a request follow each other: the bounds that encodeItems of items/sync.go finds.
use gosn_v.Prelude.{
  ℕ, ◌+◌, ◌-◌, ◌≤◌, ◌<◌, false, ◌&&◌, ◌≡◌, ◌≢◌, refl, sym, ap, ◌∙◌, List, [], ◌∷◌, ◌++◌, length,
  take, drop, drop-drop, take-append-drop, ltb, arith,
}
use gosn_v.Items.Types.{EncryptedItem}
use gosn_v.Sync.Types.{SyncInput}
use gosn_v.Sync.Batch.{
  determine_limit, limit_of, final_item, batch, calculate_optimal_batch_size_bounds,
  default_page_size,
}

pub limit_of-ge : (input : SyncInput) → input.page_size ≢ 1 → 2 ≤ limit_of input
unfolding limit_of determine_limit
limit_of-ge input h =
    ground
      (arith, calculate_optimal_batch_size_bounds input.items input.next_item default_page_size)

pub final_item-lt :
    (items : List EncryptedItem) (s limit : ℕ)
    → s < length items
    → 1 ≤ limit
    → (s ≤ final_item items s limit) × (final_item items s limit < length items)
unfolding final_item
final_item-lt [] s limit h k = absurd (omega arith)
final_item-lt (e ∷ es) s limit h k = (omega arith, omega arith)

-- A request and what stands behind its last item make up what was left to put.
pub batch-append-drop :
    (items : List EncryptedItem) (s limit : ℕ)
    → s < length items
    → 1 ≤ limit
    → batch items s limit ++ drop (final_item items s limit + 1) items ≡ drop s items
unfolding batch
batch-append-drop [] s limit h k = absurd (omega arith)
batch-append-drop (e ∷ es) s limit h k =
    let items = e ∷ es in
    let n = final_item items s limit + 1 in
    let fits = final_item-lt items s limit h k in
    ap (λ r. take (n - s) (drop s items) ++ r) (sym (drop-drop s (n - s) n items (omega arith)))
    ∙ take-append-drop (n - s) (drop s items)

-- A call that stops has reached the last item.
pub final_item-end :
    (items : List EncryptedItem) (s limit : ℕ)
    → s < length items
    → 2 ≤ limit
    → (ltb 0 (final_item items s limit) && ltb (final_item items s limit) (length items - 1))
      ≡ false
    → length items ≤ final_item items s limit + 1
unfolding final_item
final_item-end [] s limit h k e = omega arith
final_item-end (i ∷ is) s limit h k e = ground arith

pub limit_of-one : (input : SyncInput) → input.page_size ≡ 1 → limit_of input ≡ 1
unfolding limit_of determine_limit
limit_of-one input h = rw h refl

pub final_item-first : (items : List EncryptedItem) → final_item items 0 1 ≡ 0
unfolding final_item
final_item-first [] = refl
final_item-first (i ∷ is) = ground arith

pub batch-first : (items : List EncryptedItem) → batch items 0 1 ≡ take 1 items
unfolding batch final_item
batch-first [] = refl
batch-first (i ∷ is) = ground arith
