-- ===== src/Approval/Engine/Provenance.antt =====
-- Where a stored request of crates/kms-approval/src/lib.rs comes from: it was built by calls, and then
-- it is valid, or `restore_request`, which checks nothing, put one into its place.
use gm_kms.Base.{
  ◌==◌, ap, arith, contains_key, get, HashMap, get-insert, get-map_values, inl, inr, nat_Eq, some,
  sym, Bool-cases, if◌then◌else◌, Option-cases, ◌≡◌, ◌∙◌, ◌⊎◌,
}
use mathlib.Core.Option.{some-injective, none-ne-some}
use mathlib.Core.Path.{subst}
use gm_kms.Approval.Types.{determine_approval_level}
use gm_kms.Approval.Request.{Uuid, DateTime, ApprovalRequestEntity, Outcome, expire_overdue}
use gm_kms.Approval.Request.Invariant.{
  IsValid, approve_request-IsValid, reject_request-IsValid, cancel_request-IsValid,
  expire_overdue-IsValid,
}
use gm_kms.Approval.BreakGlass.{open_break_glass}
use gm_kms.Approval.Engine.{
  ApprovalEngine, RequestForm, new, new_request, create_request, restore_request, with_request,
  approve, reject, cancel, cleanup_expired, create_break_glass_request, confirm_break_glass_first,
  confirm_break_glass_second, cancel_break_glass, cleanup_expired_break_glass,
}
use gm_kms.Approval.Engine.Invariant.{Step, Reach}
use gm_kms.Approval.Engine.Lifecycle.{store-Holds, break_glass-pending}

-- a request was restored under the id
abbrev pub Restores : Uuid → {e f : ApprovalEngine} → Step e f → Type 0
Restores id (Step.create j now f unused) = ⊥
Restores id (Step.restore r) = r.id ≡ id
Restores id (Step.approving now j who role comment) = ⊥
Restores id (Step.rejecting now j who role reason) = ⊥
Restores id (Step.cancelling now j who) = ⊥
Restores id (Step.cleaning now) = ⊥
Restores id (Step.create_break_glass j now f unused) = ⊥
Restores id (Step.confirming_first now j who) = ⊥
Restores id (Step.confirming_second now j who) = ⊥
Restores id (Step.cancelling_break_glass j who) = ⊥
Restores id (Step.cleaning_break_glass now) = ⊥

abbrev pub WasRestored : Uuid → {e f : ApprovalEngine} → Reach e f → Type 0
WasRestored id Reach.here = ⊥
WasRestored id (Reach.next path s) = Restores id s ⊎ WasRestored id path

-- what is stored under the id is valid, or P
abbrev Vouched : Type 0 → Uuid → HashMap Uuid ApprovalRequestEntity → Type 0
Vouched P id m = (r : ApprovalRequestEntity) → get id m ≡ some r → IsValid r ⊎ P

new_request-IsValid :
    (id : Uuid) (now : DateTime) (f : RequestForm) → IsValid (new_request id now f)
unfolding new_request
new_request-IsValid id now f = ground arith

module _ (P : Type 0) (id : Uuid) where
  -- a request that is stored under one id
  inserted :
      (j : Uuid) (x : ApprovalRequestEntity) (e : ApprovalEngine)
      → (j ≡ id → IsValid x ⊎ P)
      → Vouched P id e.pending_requests
      → (r : ApprovalRequestEntity)
      → (if j == id then some x else get id e.pending_requests) ≡ some r
      → IsValid r ⊎ P
  inserted j x e stored h r found = elim (Bool-cases (j == id)) [
    | inl same ↦
        subst (λ y. IsValid y ⊎ P) (some-injective _ _ (rw same at found))
          (stored ((nat_Eq.test_iff j id).0 same))
    | inr other ↦ h r (rw other at found)
  ]

  with_request-Vouched :
      (j : Uuid) (method : ApprovalRequestEntity → Outcome) (e : ApprovalEngine)
      → ((r : ApprovalRequestEntity) → IsValid r → IsValid (method r).0)
      → Vouched P id e.pending_requests
      → Vouched P id (with_request j method e).0.pending_requests
  unfolding with_request
  with_request-Vouched j method e keep h = elim (Option-cases (get j e.pending_requests)) [
    | inl missing ↦ rw (missing, with_request) h
    | inr (x, there) ↦
        rw (there, with_request)
          λ r found.
            inserted j (method x).0 e (λ same. kept (h x (rw same at there))) h r
              (sym (get-insert j id (method x).0 e.pending_requests) ∙ found)
  ]
    where
      kept : {x : ApprovalRequestEntity} → IsValid x ⊎ P → IsValid (method x).0 ⊎ P
      kept (inl v) = inl (keep _ v)
      kept (inr p) = inr p

  restore_request-Vouched :
      (x : ApprovalRequestEntity) (e : ApprovalEngine)
      → Vouched P id e.pending_requests
      → Vouched ((x.id ≡ id) ⊎ P) id (restore_request x e).0.pending_requests
  unfolding restore_request
  restore_request-Vouched x e h = elim (Bool-cases (contains_key x.id e.pending_requests)) [
    | inl present ↦ rw (present, restore_request) (λ r found. later (h r found))
    | inr absent ↦
        rw (absent, restore_request)
          λ r found. elim (Bool-cases (x.id == id)) [
            | inl same ↦ inr (inl ((nat_Eq.test_iff x.id id).0 same))
            | inr other ↦
                later (h r (rw other at (sym (get-insert x.id id x e.pending_requests) ∙ found)))
          ]
  ]
    where
      later : {r : ApprovalRequestEntity} → IsValid r ⊎ P → IsValid r ⊎ ((x.id ≡ id) ⊎ P)
      later (inl v) = inl v
      later (inr q) = inr (inr q)

  cleanup_expired-Vouched :
      (now : DateTime) (e : ApprovalEngine)
      → Vouched P id e.pending_requests
      → Vouched P id (cleanup_expired now e).0.pending_requests
  unfolding cleanup_expired
  cleanup_expired-Vouched now e h r found =
      let mapped = sym (get-map_values id (expire_overdue now) e.pending_requests) ∙ found in
      elim (Option-cases (get id e.pending_requests)) [
        | inl missing ↦ absurd (none-ne-some _ (rw missing at mapped))
        | inr (x, there) ↦
            subst (λ y. IsValid y ⊎ P) (some-injective _ _ (rw there at mapped)) (kept (h x there))
      ]
    where
      kept : {x : ApprovalRequestEntity} → IsValid x ⊎ P → IsValid (expire_overdue now x) ⊎ P
      kept (inl v) = inl (expire_overdue-IsValid now _ v)
      kept (inr p) = inr p

  -- the requests are the same
  same_requests :
      (m n : HashMap Uuid ApprovalRequestEntity) → n ≡ m → Vouched P id m → Vouched P id n
  same_requests m n same h r found = h r (ap (get id) (sym same) ∙ found)

  weakened : (m : HashMap Uuid ApprovalRequestEntity) → Vouched P id m → Vouched (⊥ ⊎ P) id m
  weakened m h r found = elim (h r found) [ inl v ↦ inl v | inr p ↦ inr (inr p) ]

  Step-Vouched :
      {e f : ApprovalEngine} (s : Step e f)
      → Vouched P id e.pending_requests
      → Vouched (Restores id s ⊎ P) id f.pending_requests
  unfolding create_request approve reject cancel create_break_glass_request
      confirm_break_glass_first confirm_break_glass_second cancel_break_glass
      cleanup_expired_break_glass
  Step-Vouched {e} (Step.create j now f unused) h = weakened _ λ r found.
      inserted j (new_request j now f) e (λ same. inl (new_request-IsValid j now f)) h r
        (sym (get-insert j id (new_request j now f) e.pending_requests) ∙ found)
  Step-Vouched {e} (Step.restore x) h = restore_request-Vouched x e h
  Step-Vouched {e} (Step.approving now j who role comment) h = weakened _ (
      with_request-Vouched j _ e
        (approve_request-IsValid now who (determine_approval_level role) comment) h)
  Step-Vouched {e} (Step.rejecting now j who role reason) h = weakened _ (
      with_request-Vouched j _ e
        (reject_request-IsValid now who (determine_approval_level role) reason) h)
  Step-Vouched {e} (Step.cancelling now j who) h =
      weakened _ (with_request-Vouched j _ e (cancel_request-IsValid now who) h)
  Step-Vouched {e} (Step.cleaning now) h = weakened _ (cleanup_expired-Vouched now e h)
  Step-Vouched {e} (Step.create_break_glass j now f unused) h =
      weakened _ (same_requests _ _ (store-Holds j e (open_break_glass j now f)) h)
  Step-Vouched {e} (Step.confirming_first now j who) h =
      weakened _ (same_requests _ _ (break_glass-pending j _ e) h)
  Step-Vouched {e} (Step.confirming_second now j who) h =
      weakened _ (same_requests _ _ (break_glass-pending j _ e) h)
  Step-Vouched {e} (Step.cancelling_break_glass j who) h =
      weakened _ (same_requests _ _ (break_glass-pending j _ e) h)
  Step-Vouched {e} (Step.cleaning_break_glass now) h = weakened _ h

-- In every engine that calls build, a stored request is valid, or one was restored under its id.
pub Reach-IsValid :
    (id : Uuid) {e : ApprovalEngine} (path : Reach new e) (r : ApprovalRequestEntity)
    → get id e.pending_requests ≡ some r
    → IsValid r ⊎ WasRestored id path
unfolding new get
Reach-IsValid id Reach.here r found = absurd (none-ne-some _ found)
Reach-IsValid id (Reach.next path s) r found =
    Step-Vouched (WasRestored id path) id s (Reach-IsValid id path) r found
