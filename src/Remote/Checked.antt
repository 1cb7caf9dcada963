-- ===== src/Remote/Checked.antt =====
-- The answers of `snapshotRead` of npm/src/remote.ts.
use denokv.Prelude.{
  ℕ, ◌≡◌, ◌⊎◌, true, false, leb, Bool-cases, inl, inr, Result, ok, err, List, subst, arith,
}
use denokv.InMemory.Transaction.{after}
use denokv.ProtoBased.{ReadRange}
use denokv.KvConnect.Metadata.{Consistency, strong, eventual}
use denokv.KvConnect.{SnapshotReadOutput, Platform}
use denokv.Remote.Choice.{is_read_disabled, response_check}
use denokv.Remote.{Config, RemoteKv, refresh, read_once, checked_response, snapshot_read}

abbrev pub IsConsistent : Consistency → SnapshotReadOutput → Type 0
IsConsistent strong res = res.read_is_strongly_consistent ≡ true
IsConsistent eventual res = Unit {0}

-- What the client wants of an answer.
abbrev pub IsAcceptable : Consistency → ℕ → SnapshotReadOutput → Type 0
IsAcceptable consistency version res =
    (res.read_disabled ≡ false)
    × IsConsistent consistency res
    × ((leb 3 version ≡ false) ⊎ (is_read_disabled res.status ≡ false))

response_check-IsAcceptable :
    (consistency : Consistency) (version : ℕ) (res : SnapshotReadOutput)
    → response_check consistency version res ≡ true
    → IsAcceptable consistency version res
unfolding response_check
response_check-IsAcceptable strong version res h = ground arith
response_check-IsAcceptable eventual version res h = ground arith

abbrev AnswersAcceptably : Consistency → Result SnapshotReadOutput × RemoteKv → Type 0
AnswersAcceptably consistency (err e, s) = Unit {0}
AnswersAcceptably consistency (ok res, s) = IsAcceptable consistency s.metadata.version res

after-AnswersAcceptably :
    {A : Type 0} (consistency : Consistency) (p : Result A × RemoteKv)
    (f : A → RemoteKv → Result SnapshotReadOutput × RemoteKv)
    → ((a : A) (s : RemoteKv) → AnswersAcceptably consistency (f a s))
    → AnswersAcceptably consistency (after p f)
after-AnswersAcceptably consistency (err e, s) f h = tt
after-AnswersAcceptably consistency (ok a, s) f h = h a s

checked_response-AnswersAcceptably :
    (consistency : Consistency) (res : SnapshotReadOutput) (s : RemoteKv)
    → AnswersAcceptably consistency (checked_response consistency res s)
checked_response-AnswersAcceptably consistency res s =
    elim (Bool-cases (response_check consistency s.metadata.version res)) [
      | inl h ↦ rw h (response_check-IsAcceptable consistency s.metadata.version res h)
      | inr h ↦ rw h tt
    ]

module _ (P : Platform) where
  snapshot_read-AnswersAcceptably :
      (c : Config) (req : List ReadRange) (consistency : Consistency) (s : RemoteKv)
      → AnswersAcceptably consistency (snapshot_read P c req consistency s)
  unfolding snapshot_read
  snapshot_read-AnswersAcceptably c req consistency s =
      after-AnswersAcceptably consistency (read_once P c s.metadata req consistency s) _ λ res t.
        elim (Bool-cases (response_check consistency t.metadata.version res)) [
          | inl h ↦ rw h (response_check-IsAcceptable consistency t.metadata.version res h)
          | inr h ↦ rw h (
              after-AnswersAcceptably consistency (refresh P c t) _ λ _ u.
                after-AnswersAcceptably consistency (read_once P c s.metadata req consistency u) _
                  λ res' v. checked_response-AnswersAcceptably consistency res' v)
        ]

  -- Whatever the server answers, `snapshotRead` returns no answer that says that reads are disabled,
  -- by its flag or, from version 3 of the protocol on, by its status, and for a strong read none
  -- that is not strongly consistent: it throws instead.
  pub snapshot_read-IsAcceptable :
      (c : Config) (req : List ReadRange) (consistency : Consistency) (s t : RemoteKv)
      (res : SnapshotReadOutput)
      → snapshot_read P c req consistency s ≡ (ok res, t)
      → IsAcceptable consistency t.metadata.version res
  snapshot_read-IsAcceptable c req consistency s t res h =
      subst (AnswersAcceptably consistency) h (snapshot_read-AnswersAcceptably c req consistency s)
