-- ===== src/Sync/Paging/Downloads.antt =====
-- What syncItemsViaAPI gathers, at any server.
use mathlib.Core.List.{append_assoc, append-nil}
use gosn_v.Prelude.{
  ℕ, zero, suc, ◌&&◌, ◌≡◌, ◌≢◌, refl, sym, ap, ◌∙◌, none, some, List, [], ◌∷◌, ◌++◌, length, ltb,
  ◌⊎◌, inl, inr, Bool-cases, Option-cases,
}
use gosn_v.Sync.Types.{SyncInput, SyncResponseData, Body, Server, Fault, Synced}
use gosn_v.Sync.Batch.{limit_of, final_item, batch}
use gosn_v.Sync.Paging.{
  build_request_body, receive, goes_on, next_input, combine, sync_items_via_api,
}

module _ {A : Type 0} (server : Server) (field : SyncResponseData → List A) where
  abbrev pub part : SyncResponseData ⊎ Fault → List A
  part (inl d) = field d
  part (inr e) = []

  -- What the answers to requests hold in a field, one after the other, where others were sent before.
  abbrev pub gathered : List Body → List Body → List A
  gathered sent [] = []
  gathered sent (b ∷ bs) = part (receive (server sent b)) ++ gathered (sent ++ b ∷ []) bs

-- The requests are some more than those before, and each list of the result holds what the answers
-- to them hold there.
pub record IsGathered (server : Server) (before : List Body) (r : Synced) : Type 0 where
  pub requests : List Body
  pub sent : r.sent ≡ before ++ requests
  pub items : r.out.items ≡ gathered server (λ d. d.items) before requests
  pub saved_items : r.out.saved_items ≡ gathered server (λ d. d.saved_items) before requests
  pub unsaved : r.out.unsaved ≡ gathered server (λ d. d.unsaved) before requests
  pub conflicts : r.out.conflicts ≡ gathered server (λ d. d.conflicts) before requests

combine-none :
    (out : SyncResponseData) (rest : Synced) → (combine out rest).fault ≡ none → rest.fault ≡ none
combine-none out rest h = elim (Option-cases rest.fault) [
  | inl e ↦ e
  | inr (f, e) ↦ let no : some f ≡ none = rw e at h in cc
]

module _ (server : Server) (before : List Body) (b : Body) (d : SyncResponseData)
    (got : receive (server before b) ≡ inl d) where
  first :
      {A : Type 0} (field : SyncResponseData → List A) (bs : List Body)
      → gathered server field before (b ∷ bs)
        ≡ field d ++ gathered server field (before ++ b ∷ []) bs
  first field bs = rw got refl

  last :
      {A : Type 0} (field : SyncResponseData → List A)
      → field d ≡ gathered server field before (b ∷ [])
  last field = rw got (sym (append-nil (field d)))

  IsGathered-last :
      (final limit : ℕ)
      → IsGathered server before (record {
        out = record d { last_item_put = final; put_limit_used = limit };
        fault = none;
        sent = before ++ b ∷ [];
      })
  IsGathered-last final limit = record {
    requests = b ∷ [];
    sent = refl;
    items = last (λ r. r.items);
    saved_items = last (λ r. r.saved_items);
    unsaved = last (λ r. r.unsaved);
    conflicts = last (λ r. r.conflicts);
  }

  further :
      {A : Type 0} (field : SyncResponseData → List A) (bs : List Body) (more : List A)
      → more ≡ gathered server field (before ++ b ∷ []) bs
      → field d ++ more ≡ gathered server field before (b ∷ bs)
  further field bs more h = ap (λ m. field d ++ m) h ∙ sym (first field bs)

  IsGathered-combine :
      (final limit : ℕ) (rest : Synced)
      → rest.fault ≡ none
      → IsGathered server (before ++ b ∷ []) rest
      → IsGathered server before
          (combine (record d { last_item_put = final; put_limit_used = limit }) rest)
  IsGathered-combine final limit rest h g = rw h (record {
    requests = b ∷ g.requests;
    sent = g.sent ∙ append_assoc before (b ∷ []) g.requests;
    items = further (λ r. r.items) g.requests rest.out.items g.items;
    saved_items = further (λ r. r.saved_items) g.requests rest.out.saved_items g.saved_items;
    unsaved = further (λ r. r.unsaved) g.requests rest.out.unsaved g.unsaved;
    conflicts = further (λ r. r.conflicts) g.requests rest.out.conflicts g.conflicts;
  })

fault_some : {e : Fault} → some e ≢ none
fault_some h = cc

receive_cases :
    (r : SyncResponseData ⊎ Fault)
    → ((d : SyncResponseData) × (r ≡ inl d)) ⊎ ((e : Fault) × (r ≡ inr e))
receive_cases (inl d) = inl (d, refl)
receive_cases (inr e) = inr (e, refl)

-- Whatever the server answers: where syncItemsViaAPI returns no error, each list of its result holds
-- what the answers to its requests hold there, one after the other, and nothing else.
pub sync_items_via_api-IsGathered :
    (server : Server) (fuel : ℕ) (input : SyncInput) (before : List Body)
    → (sync_items_via_api server fuel input before).fault ≡ none
    → IsGathered server before (sync_items_via_api server fuel input before)
unfolding sync_items_via_api
sync_items_via_api-IsGathered server zero input before h = absurd (fault_some h)
sync_items_via_api-IsGathered server (suc fuel) input before h =
    let limit = limit_of input in
    let final = final_item input.items input.next_item limit in
    let body = build_request_body input limit (batch input.items input.next_item limit) in
    let over = ltb 0 (length input.items) && ltb (length input.items) input.next_item in
    elim (Bool-cases over) [
      | inl e ↦ absurd (fault_some (rw e at h))
      | inr inside ↦ elim (receive_cases (receive (server before body))) [
        | inr (e, refused) ↦ absurd (fault_some (rw (inside, refused) at h))
        | inl (d, got) ↦
            let next = next_input input limit final d in
            let rest = sync_items_via_api server fuel next (before ++ body ∷ []) in
            elim (Bool-cases (goes_on input final d)) [
              | inr stops ↦
                  rw (inside, got, stops) (IsGathered-last server before body d got final limit)
              | inl more ↦
                  let out = record d { last_item_put = final; put_limit_used = limit } in
                  let calm = combine-none out rest (rw (inside, got, more) at h) in
                  rw (inside, got, more)
                    (IsGathered-combine server before body d got final limit rest calm
                      (sync_items_via_api-IsGathered server fuel next (before ++ body ∷ []) calm))
            ]
      ]
    ]
