-- ===== src/Store/Consistent/Keeps.antt =====
-- Updates of jobs and invalidations of attempts keep the invariant of the state store.
use dohwa_hermes_stack.Base.{
  ℕ, ◌≡◌, refl, ◌≢◌, Bool, true, false, ◌&&◌, some, List, [], ◌∷◌, ◌++◌, String, arith, ◌==◌, All,
  All-append, All-intro, All-imp, All-imp₂, All-map, Pairs-update, Pairs-imp, Apart, Apart-append,
  Apart-update, find_row, find_row-only, update_if, update_rows, update_rows-All, if◌then◌else◌,
  Bool-cases, inl, inr,
}
use dohwa_hermes_stack.Models.{ReviewState, ReviewJob}
use dohwa_hermes_stack.Store.Tables.{ReviewAttempt, is_open}
use dohwa_hermes_stack.Store.Invalidate.{id_in, end_attempt, has_left}
use dohwa_hermes_stack.Store.Invalidate.Effects.{ended}
use dohwa_hermes_stack.Store.Consistent.{fits, fits_but, clash, HasShape, knows, Consistent}

knows-update :
    (p : ReviewJob → Bool) (f : ReviewJob → ReviewJob)
    → ((j : ReviewJob) → (f j).id ≡ j.id)
    → (jobs : List ReviewJob) (a : ReviewAttempt) → knows (update_rows p f jobs) a ≡ knows jobs a
unfolding update_rows
knows-update p f same [] a = refl
knows-update p f same (j ∷ js) a = ground (arith, same j, knows-update p f same js a)

ended-HasShape :
    (ids : List ℕ) (reason : String) (now : ℕ) (xs : List ReviewAttempt)
    → All HasShape xs
    → All HasShape (ended ids reason now xs)
ended-HasShape ids reason now xs =
    update_rows-All HasShape HasShape (λ r. id_in r.job_id ids && is_open r.status)
      (end_attempt reason now) (λ x h p. ground arith) (λ x h p. h) xs

ended-Apart :
    (ids : List ℕ) (reason : String) (now : ℕ) (xs : List ReviewAttempt)
    → Apart (λ a b. clash a b ≡ false) xs
    → Apart (λ a b. clash a b ≡ false) (ended ids reason now xs)
ended-Apart ids reason now xs =
    Apart-update _ (λ r. id_in r.job_id ids && is_open r.status) (end_attempt reason now)
      (λ a b h. ground arith) xs

-- Jobs are updated, with their identities kept, and the attempts of some jobs are ended.
pub update-Consistent :
    (fit fit' : ReviewJob → ReviewAttempt → Bool) (p : ReviewJob → Bool) (f : ReviewJob → ReviewJob)
    (ids : List ℕ) (reason : String) (now : ℕ)
    → ((j : ReviewJob) → (f j).id ≡ j.id)
    → ((j : ReviewJob) (a : ReviewAttempt)
        → fit j a ≡ true
        → fit'
            (update_if p f j)
            (update_if (λ r. id_in r.job_id ids && is_open r.status) (end_attempt reason now) a)
          ≡ true)
    → (jobs : List ReviewJob) (attempts : List ReviewAttempt) → Consistent fit jobs attempts
    → Consistent fit' (update_rows p f jobs) (ended ids reason now attempts)
update-Consistent fit fit' p f ids reason now same keep jobs attempts c = record {
  job_keys = Apart-update _ p f (λ x y ne. ground (arith, same x, same y)) jobs c.job_keys;
  no_stale = Pairs-update _ _ p f _ _ keep jobs attempts c.no_stale;
  one_open = ended-Apart ids reason now attempts c.one_open;
  shapes = ended-HasShape ids reason now attempts c.shapes;
  known =
      update_rows-All _ _ _ (end_attempt reason now)
        (λ a k q. ground (arith, knows-update p f same jobs a, k))
        (λ a k q. ground (arith, knows-update p f same jobs a, k)) attempts c.known;
}

-- Jobs are updated, and the attempts stay.
pub update_jobs-Consistent :
    (fit fit' : ReviewJob → ReviewAttempt → Bool) (p : ReviewJob → Bool) (f : ReviewJob → ReviewJob)
    → ((j : ReviewJob) → (f j).id ≡ j.id)
    → ((j : ReviewJob) (a : ReviewAttempt) → fit j a ≡ true → fit' (update_if p f j) a ≡ true)
    → (jobs : List ReviewJob) (attempts : List ReviewAttempt) → Consistent fit jobs attempts
    → Consistent fit' (update_rows p f jobs) attempts
unfolding update_rows
update_jobs-Consistent fit fit' p f same keep jobs attempts c = record {
  job_keys = Apart-update _ p f (λ x y ne. ground (arith, same x, same y)) jobs c.job_keys;
  no_stale = All-map _ _ (update_if p f) (λ j r. All-imp _ _ (keep j) attempts r) jobs c.no_stale;
  one_open = c.one_open;
  shapes = c.shapes;
  known = All-imp _ _ (λ a k. ground (arith, knows-update p f same jobs a, k)) attempts c.known;
}

-- The attempts of a job whose state has left its review.
abbrev pub settled : ℕ → ReviewState → String → ℕ → List ReviewAttempt → List ReviewAttempt
settled k state reason now attempts =
    if has_left state then ended (k ∷ []) reason now attempts else attempts

module _ (k : ℕ) (x : ReviewJob) (reason : String) (now : ℕ) (jobs : List ReviewJob)
    (attempts : List ReviewAttempt) (found : find_row (λ j. j.id == k) jobs ≡ some x)
    (c : Consistent (fits_but k) jobs attempts) where
  settled_left : has_left x.state ≡ true → Consistent fits jobs (ended (k ∷ []) reason now attempts)
  unfolding id_in
  settled_left l = record {
    job_keys = c.job_keys;
    no_stale =
        All-imp _ _
          (λ j r.
            update_rows-All _ _ _ _ (λ a h q. ground arith) (λ a h q. ground arith) attempts r)
          jobs c.no_stale;
    one_open = ended-Apart (k ∷ []) reason now attempts c.one_open;
    shapes = ended-HasShape (k ∷ []) reason now attempts c.shapes;
    known = update_rows-All _ _ _ _ (λ a h q. h) (λ a h q. h) attempts c.known;
  }

  settled_stay : has_left x.state ≡ false → Consistent fits jobs attempts
  settled_stay n = record {
    job_keys = c.job_keys;
    no_stale =
        All-imp₂ _ _ _ (λ j only r. All-imp _ _ (λ a h. ground (arith, only)) attempts r) jobs
          (find_row-only (λ j. j.id) k jobs c.job_keys found) c.no_stale;
    one_open = c.one_open;
    shapes = c.shapes;
    known = c.known;
  }

  -- Once the attempts of a moved job are invalidated where its state asks for it, the invariant
  -- holds again.
  pub settled-Consistent : Consistent fits jobs (settled k x.state reason now attempts)
  settled-Consistent = elim (Bool-cases (has_left x.state)) [
    | inl l ↦ rw l (settled_left l)
    | inr n ↦ rw n (settled_stay n)
  ]

-- The invariant with one job excepted is weaker.
pub weaken-Consistent :
    (k : ℕ) (jobs : List ReviewJob) (attempts : List ReviewAttempt)
    → Consistent fits jobs attempts
    → Consistent (fits_but k) jobs attempts
weaken-Consistent k jobs attempts c = record {
  job_keys = c.job_keys;
  no_stale = Pairs-imp _ _ (λ j a f. ground arith) jobs attempts c.no_stale;
  one_open = c.one_open;
  shapes = c.shapes;
  known = c.known;
}

knows-append :
    (jobs : List ReviewJob) (x : ReviewJob) (a : ReviewAttempt)
    → knows jobs a ≡ true
    → knows (jobs ++ x ∷ []) a ≡ true
knows-append [] x a h = absurd (cc)
knows-append (j ∷ js) x a h = elim (Bool-cases (j.id == a.job_id)) [
  | inl e ↦ rw e refl
  | inr n ↦ rw n (knows-append js x a (rw n at h))
]

-- A job with a fresh identity may be added; it is excepted until it is settled.
pub append-Consistent :
    (x : ReviewJob) (jobs : List ReviewJob) (attempts : List ReviewAttempt)
    → All (λ j. j.id ≢ x.id) jobs
    → Consistent fits jobs attempts
    → Consistent (fits_but x.id) (jobs ++ x ∷ []) attempts
append-Consistent x jobs attempts fresh c = record {
  job_keys = Apart-append _ jobs x c.job_keys fresh;
  no_stale =
      All-append _ jobs (x ∷ []) (weaken-Consistent x.id jobs attempts c).no_stale
        (All-intro _ (λ a. ground arith) attempts, tt);
  one_open = c.one_open;
  shapes = c.shapes;
  known = All-imp _ _ (λ a k. knows-append jobs x a k) attempts c.known;
}
