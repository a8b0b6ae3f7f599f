-- ===== src/Sync/Paging/Uploads.antt =====
-- Which items syncItemsViaAPI puts, at a server that answers each request and has nothing more to
-- give.
use mathlib.Core.List.{append_assoc, append-nil}
use gosn_v.Prelude.{
  ℕ, zero, suc, ◌+◌, ◌-◌, ◌≤◌, ◌<◌, true, false, not, ◌&&◌, ◌≡◌, ◌≢◌, refl, sym, ap, ◌∙◌, none,
  some, List, [], ◌∷◌, ◌++◌, ◌==◌, length, take, drop, drop_all, ltb, if◌then◌else◌, inl, inr,
  arith, Bool-cases,
}
use gosn_v.Items.Types.{EncryptedItem}
use gosn_v.Sync.Types.{SyncInput, SyncResponseData, Body, answered, Server, Synced}
use gosn_v.Sync.Batch.{limit_of, final_item, batch}
use gosn_v.Sync.Batch.Pages.{
  limit_of-ge, final_item-lt, batch-append-drop, final_item-end, limit_of-one, final_item-first,
  batch-first,
}
use gosn_v.Sync.Paging.{
  build_request_body, keyed_items_key, receive, goes_on, next_input, combine, sync_items_via_api,
}

-- The server answers with status 200, with items that pass the check, and with no cursor token.
pub record IsCalm (server : Server) : Type 0 where
  pub answer : List Body → Body → SyncResponseData
  pub answers : (h : List Body) (b : Body) → server h b ≡ answered 200 (some (answer h b))
  pub unkeyed : (h : List Body) (b : Body) → keyed_items_key (answer h b).items ≡ none
  pub no_cursor :
      (h : List Body) (b : Body)
      → (not ((answer h b).cursor_token == "") && not ((answer h b).cursor_token == "null")) ≡ false

-- The items of all requests, in order.
abbrev pub put_items : List Body → List EncryptedItem
put_items [] = []
put_items (b ∷ bs) = b.items ++ put_items bs

put_items-snoc : (bs : List Body) (b : Body) → put_items (bs ++ b ∷ []) ≡ put_items bs ++ b.items
put_items-snoc [] b = append-nil b.items
put_items-snoc (c ∷ bs) b = rw (put_items-snoc bs b) (rw append_assoc)

-- The request that a call sends.
abbrev request : SyncInput → Body
request input =
    build_request_body input (limit_of input) (batch input.items input.next_item (limit_of input))

build_request_body-items :
    (input : SyncInput) (limit : ℕ) (items : List EncryptedItem)
    → (build_request_body input limit items).items ≡ items
unfolding build_request_body
build_request_body-items input limit items = ground arith

abbrev last_put : SyncInput → ℕ
last_put input = final_item input.items input.next_item (limit_of input)

combine_lem :
    (out : SyncResponseData) (rest : Synced)
    → rest.fault ≡ none
    → ((combine out rest).fault ≡ none) × ((combine out rest).sent ≡ rest.sent)
combine_lem out rest h = rw h (refl, refl)

module _ {server : Server} (calm : IsCalm server) where
  -- The answer to the request of a call, as the call returns it.
  abbrev got : SyncInput → List Body → SyncResponseData
  got input sent = record (calm.answer sent (request input)) {
    last_item_put = last_put input;
    put_limit_used = limit_of input;
  }

  abbrev further : ℕ → SyncInput → List Body → Synced
  further fuel input sent =
      sync_items_via_api server fuel
        (next_input input (limit_of input) (last_put input) (calm.answer sent (request input)))
        (sent ++ request input ∷ [])

  receive_calm : (sent : List Body) (b : Body) → receive (server sent b) ≡ inl (calm.answer sent b)
  unfolding receive
  receive_calm sent b = rw (calm.answers sent b) (rw (calm.unkeyed sent b) refl)

  goes_on_calm :
      (input : SyncInput) (sent : List Body)
      → goes_on input (last_put input) (calm.answer sent (request input))
        ≡ (ltb 0 (last_put input) && ltb (last_put input) (length input.items - 1))
  unfolding goes_on
  goes_on_calm input sent = ground (arith, calm.no_cursor sent (request input))

  step :
      (fuel : ℕ) (input : SyncInput) (sent : List Body)
      → input.next_item < length input.items
      → sync_items_via_api server (suc fuel) input sent ≡ (
          if ltb 0 (last_put input) && ltb (last_put input) (length input.items - 1)
          then combine (got input sent) (further fuel input sent)
          else record { out = got input sent; fault = none; sent = sent ++ request input ∷ [] })
  unfolding sync_items_via_api
  step fuel input sent h =
      let inside : (ltb 0 (length input.items) && ltb (length input.items) input.next_item)
          ≡ false =
        ground arith in
      rw inside (rw (receive_calm sent (request input)) (rw (goes_on_calm input sent) refl))

  abbrev Puts : SyncInput → List Body → Synced → Type 0
  Puts input sent r =
      (r.fault ≡ none) × (put_items r.sent ≡ put_items sent ++ drop input.next_item input.items)

  put_request :
      (input : SyncInput) (sent : List Body)
      → input.next_item < length input.items
      → 1 ≤ limit_of input
      → put_items (sent ++ request input ∷ []) ++ drop (last_put input + 1) input.items
        ≡ put_items sent ++ drop input.next_item input.items
  put_request input sent h k =
      let part = batch input.items input.next_item (limit_of input) in
      rw (put_items-snoc sent (request input)) (
        rw (build_request_body-items input (limit_of input) part) (
          rw append_assoc (
            ap (λ r. put_items sent ++ r)
              (batch-append-drop input.items input.next_item (limit_of input) h k))))

  -- A call that does not go on has put all that was left.
  Puts-end :
      (input : SyncInput) (sent : List Body)
      → input.next_item < length input.items
      → 2 ≤ limit_of input
      → (ltb 0 (last_put input) && ltb (last_put input) (length input.items - 1)) ≡ false
      → put_items (sent ++ request input ∷ []) ≡ put_items sent ++ drop input.next_item input.items
  Puts-end input sent h k e =
      let over = final_item-end input.items input.next_item (limit_of input) h k e in
      sym (append-nil (put_items (sent ++ request input ∷ [])))
      ∙ ap (λ r. put_items (sent ++ request input ∷ []) ++ r)
          (sym (drop_all (last_put input + 1) input.items over))
      ∙ put_request input sent h (omega arith)

  Puts-loop :
      (fuel : ℕ) (input : SyncInput) (sent : List Body)
      → input.page_size ≢ 1
      → input.next_item < length input.items
      → length input.items - input.next_item < fuel
      → Puts input sent (sync_items_via_api server fuel input sent)
  Puts-loop zero input sent p h k = absurd (omega arith)
  Puts-loop (suc fuel) input sent p h k =
      let limited = limit_of-ge input p in
      let fits = final_item-lt input.items input.next_item (limit_of input) h (omega arith) in
      let more = ltb 0 (last_put input) && ltb (last_put input) (length input.items - 1) in
      rw (step fuel input sent h) (elim (Bool-cases more) [
        | inr e ↦ rw e (refl, Puts-end input sent h limited e)
        | inl e ↦
            let first : ltb 0 (last_put input) ≡ true = ground arith in
            let next =
              next_input input (limit_of input) (last_put input)
                (calm.answer sent (request input)) in
            let moves : next.next_item ≡ last_put input + 1 = rw first refl in
            let ih : Puts next (sent ++ request input ∷ []) (further fuel input sent) =
              Puts-loop fuel next (sent ++ request input ∷ []) (λ one. absurd (omega (arith, one)))
                (rw moves (ground arith)) (rw moves (ground arith)) in
            let done = combine_lem (got input sent) (further fuel input sent) ih.0 in
            rw e (
              done.0,
              ap put_items done.1
                  ∙ ih.1
                  ∙ ap (λ n. put_items (sent ++ request input ∷ []) ++ drop n input.items) moves
                  ∙ put_request input sent h (omega arith),
            )
      ])

  -- The requests of a synchronisation from the first item put every item once and in order, and it
  -- returns no error: with a page size other than 1 and one step of fuel for each item and one more.
  pub put_items-sync_items_via_api :
      (fuel : ℕ) (input : SyncInput)
      → input.page_size ≢ 1
      → input.next_item ≡ 0
      → 0 < length input.items
      → length input.items < fuel
      → ((sync_items_via_api server fuel input []).fault ≡ none)
        × (put_items (sync_items_via_api server fuel input []).sent ≡ input.items)
  put_items-sync_items_via_api fuel input p s h k =
      let all = Puts-loop fuel input [] p (rw s h) (rw s (omega (arith, k))) in
      (all.0, all.1 ∙ ap (λ n. drop n input.items) s)

  -- With a page size of 1 only the first item is put, and no error tells of the others.
  pub sync_items_via_api-one :
      (fuel : ℕ) (input : SyncInput)
      → input.page_size ≡ 1
      → input.next_item ≡ 0
      → 0 < length input.items
      → ((sync_items_via_api server (suc fuel) input []).fault ≡ none)
        × (put_items (sync_items_via_api server (suc fuel) input []).sent ≡ take 1 input.items)
  sync_items_via_api-one fuel input p s h =
      let one = limit_of-one input p in
      let first = final_item-first input.items in
      let size =
        build_request_body-items input (limit_of input)
          (batch input.items input.next_item (limit_of input)) in
      let stops : (ltb 0 (last_put input) && ltb (last_put input) (length input.items - 1))
          ≡ false =
        rw one (rw s (rw first refl)) in
      rw (step fuel input [] (rw s h)) (
        rw stops
          (refl, append-nil (request input).items ∙ size ∙ rw one (rw s (batch-first input.items))))
