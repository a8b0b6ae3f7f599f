-- ===== src/Sync/Batch.antt =====
-- The size of a request: determineLimit, calculateOptimalBatchSize, resizeForRetry and the bounds of
-- encodeItems in items/sync.go, with the constants of common/common.go.
pub mod Pages
use Prim.Native.String.{len}
use native.Mathlib.Nat.{le-div_iff_mul-le}
use gosn_v.Prelude.{
  ℕ, ◌+◌, ◌-◌, ◌*◌, ◌/◌, ◌≤◌, ◌<◌, min, false, ◌&&◌, not, ◌≡◌, length-take, length-drop, List, [],
  ◌∷◌, arith, length, take, drop, ltb, leb, eqb, if◌then◌else◌,
}
use gosn_v.Items.Types.{EncryptedItem}
use gosn_v.Sync.Types.{SyncInput}

abbrev pub default_page_size : ℕ
default_page_size = 150

abbrev pub min_page_size : ℕ
min_page_size = 50

abbrev pub max_page_size : ℕ
max_page_size = 500

abbrev pub target_payload_size : ℕ
target_payload_size = 256 * 1024

unfoldable pub determine_limit : ℕ → ℕ
determine_limit page_size = if ltb 0 page_size then page_size else default_page_size

-- The content and some 200 bytes of fields for each item of the sample.
pub total_size : List EncryptedItem → ℕ
total_size [] = 0
total_size (e ∷ es) = len e.content + 200 + total_size es

unfoldable pub calculate_optimal_batch_size : List EncryptedItem → ℕ → ℕ → ℕ
unfolding total_size
calculate_optimal_batch_size items start_idx default_size =
    let remaining = length items - start_idx in
    let sample_size = if ltb remaining 10 then remaining else 10 in
    let avg_item_size = total_size (take sample_size (drop start_idx items)) / sample_size in
    let optimal_size = target_payload_size / avg_item_size in
    if leb (length items) start_idx
    then default_size
    else if eqb avg_item_size 0
    then default_size
    else if ltb optimal_size min_page_size
    then min_page_size
    else if ltb max_page_size optimal_size
    then max_page_size
    else optimal_size

-- The limit that syncItemsViaAPI uses.
unfoldable pub limit_of : SyncInput → ℕ
unfolding determine_limit
limit_of input =
    let limit = determine_limit input.page_size in
    if eqb limit default_page_size
      && (ltb 0 (length input.items) && ltb input.next_item (length input.items))
    then calculate_optimal_batch_size input.items input.next_item limit
    else limit

-- math.Ceil(float64(n) * 0.25), which is exact
unfoldable pub resize_for_retry : SyncInput → SyncInput
resize_for_retry input =
    if not (eqb input.page_size 0)
    then record input { page_size = (input.page_size + 3) / 4 }
    else record input { page_size = (default_page_size + 3) / 4 }

-- The index of the last item that encodeItems encodes.
unfoldable pub final_item : List EncryptedItem → ℕ → ℕ → ℕ
final_item [] start limit = 0
final_item (e ∷ es) start limit = min (length es) (start + limit - 1)

-- items[start : finalItem+1]
unfoldable pub batch : List EncryptedItem → ℕ → ℕ → List EncryptedItem
unfolding final_item
batch [] start limit = []
batch (e ∷ es) start limit =
    take (final_item (e ∷ es) start limit + 1 - start) (drop start (e ∷ es))

total_size-ge : (es : List EncryptedItem) → 200 * length es ≤ total_size es
unfolding total_size
total_size-ge [] = omega arith
total_size-ge (e ∷ es) = omega (arith, total_size-ge es)

-- The number of items in the sample.
abbrev sample : List EncryptedItem → ℕ → ℕ
sample items start_idx = if ltb (length items - start_idx) 10 then length items - start_idx else 10

length-sample :
    (items : List EncryptedItem) (start_idx : ℕ)
    → length (take (sample items start_idx) (drop start_idx items)) ≡ sample items start_idx
length-sample items start_idx = ground (
  arith,
  length-take (sample items start_idx) (drop start_idx items),
  length-drop start_idx items,
)

average_pos : (n total : ℕ) → 0 < n → 200 * n ≤ total → eqb (total / n) 0 ≡ false
average_pos n total h k =
    let one : 1 ≤ total / n = (le-div_iff_mul-le h).1 (omega arith) in ground arith

-- Before the last item the batch size lies between MinPageSize and MaxPageSize, whatever the items.
pub calculate_optimal_batch_size_bounds :
    (items : List EncryptedItem) (start_idx default_size : ℕ)
    → start_idx < length items
    → (min_page_size ≤ calculate_optimal_batch_size items start_idx default_size)
      × (calculate_optimal_batch_size items start_idx default_size ≤ max_page_size)
unfolding calculate_optimal_batch_size
calculate_optimal_batch_size_bounds items start_idx default_size h =
    let part = take (sample items start_idx) (drop start_idx items) in
    ground (
      arith,
      average_pos (sample items start_idx) (total_size part) (ground arith)
          (omega (arith, total_size-ge part, length-sample items start_idx)),
    )
