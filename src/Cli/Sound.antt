-- ===== src/Cli/Sound.antt =====
-- What a run can rely on in the options of src/cli.rs.
use tzip.Prelude.{
  unwrap_or, ℕ, zero, suc, ◌≤◌, ◌≡◌, ◌≢◌, refl, ap, ◌∙◌, arith, ◌==◌, min, max, Bool, true, false,
  not, Bool-cases, inl, inr, Option, none, some, List, [], ◌∷◌, >>=-eq-some, ◌>>=◌, ◌>>◌, guard,
}
use tzip.Bytes.{Bytes, bytes_eq}
use tzip.Cli.{
  UserSetFlags, Args, Options, System, eq_ignore_case, auto, first_line, is_empty, given_password,
  resolve_password, resolve_read_jobs, resolve_paths, options_of, cpu_jobs_of, with_password,
  with_read_jobs, into_options,
}

some-inj : {A : Type 0} {x y : A} → some x ≡ some y → x ≡ y
some-inj h = cc

is_empty-some : {A : Type 0} (xs : List A) → not (is_empty xs) ≡ true → xs ≢ []
is_empty-some [] h = absurd cc
is_empty-some (x ∷ xs) h = λ e. absurd cc

guarded :
    {A : Type 0} (b : Bool) (o : Option A) {x : A}
    → (guard b >> o) ≡ some x
    → (b ≡ true) × (o ≡ some x)
guarded true o h = (refl, h)
guarded false o h = absurd cc

module _ (S : System) where
  read_jobs_positive : (r : Bytes) (cpu n : ℕ) → resolve_read_jobs S r cpu ≡ some n → 1 ≤ n
  unfolding resolve_read_jobs
  read_jobs_positive r cpu n h = elim (Bool-cases (eq_ignore_case r auto)) [
    | inl is_auto ↦
        let made : some (max (min cpu 8) 1) ≡ some n = rw is_auto at h in
        let same = some-inj made in omega arith
    | inr number ↦ parsed (S.parse_usize r) n (rw number at h)
  ]
    where
      parsed : (o : Option ℕ) (n : ℕ) → (o >>= λ n. guard (not (n == 0)) >> some n) ≡ some n → 1 ≤ n
      parsed none n h = absurd cc
      parsed (some k) n h =
          let (positive, same) = guarded (not (k == 0)) (some k) h in
          let is = some-inj same in ground arith

  given_password-empty :
      (password : Option Bytes) → given_password S password ≡ some (some []) → password ≡ some []
  unfolding given_password
  given_password-empty none h = absurd cc
  given_password-empty (some s) h = elim (Bool-cases (bytes_eq s (b'-' ∷ []))) [
    | inl dash ↦ absurd (prompted S.prompt_password (rw dash at h))
    | inr plain ↦ some-inj (rw plain at h)
  ]
    where
      prompted :
          (o : Option Bytes)
          → (o >>= λ pw. guard (not (is_empty pw)) >> some (some pw)) ≡ some (some [])
          → ⊥
      prompted none h = cc
      prompted (some pw) h =
          let (filled, same) = guarded (not (is_empty pw)) (some (some pw)) h in
          is_empty-some pw filled (some-inj (some-inj same))

  -- An empty password comes from an empty argument only.
  resolve_password-empty :
      (file password : Option Bytes)
      → resolve_password S file password ≡ some (some [])
      → (file ≡ none) × (password ≡ some [])
  unfolding resolve_password
  resolve_password-empty none password h = (refl, given_password-empty password h)
  resolve_password-empty (some file) password h = absurd (read_file (S.read_to_string file) h)
    where
      read_file :
          (o : Option Bytes)
          → (o >>= λ text.
              guard (not (is_empty (first_line text))) >> some (some (first_line text)))
            ≡ some (some [])
          → ⊥
      read_file none h = cc
      read_file (some text) h =
          let (filled, same) =
            guarded (not (is_empty (first_line text))) (some (some (first_line text))) h in
          is_empty-some (first_line text) filled (some-inj (some-inj same))

  -- A run has a reader and an input path; it has a CPU worker unless the number was given as 0; and its
  -- password is empty only where the argument was.
  pub into_options_sound :
      (a : Args) (flags : UserSetFlags) (o : Options)
      → into_options S a flags ≡ some o
      → (1 ≤ o.read_jobs)
        × (o.paths ≢ [])
        × (a.jobs ≢ some 0 → 1 ≤ o.cpu_jobs)
        × (o.password ≡ some [] → (a.password_file ≡ none) × (a.password ≡ some []))
  unfolding into_options
  into_options_sound a flags o h =
      let (n, readers, more) =
        >>=-eq-some (resolve_read_jobs S a.read_jobs (cpu_jobs_of S a)) (with_read_jobs S a flags)
          h in
      let (pw, secret, last) =
        >>=-eq-some (resolve_password S a.password_file a.password) (with_password S a flags n)
          more in
      let (filled, made) =
        guarded (not (is_empty (resolve_paths S a.apfs_device a.paths))) _ last in
      unfold options_of in
      rw (← some-inj made) (
        read_jobs_positive a.read_jobs (cpu_jobs_of S a) n readers,
        is_empty-some (resolve_paths S a.apfs_device a.paths) filled,
        λ given. workers a.jobs given,
        λ empty. resolve_password-empty a.password_file a.password (secret ∙ ap some empty),
      )
    where
      workers : (o : Option ℕ) → o ≢ some 0 → 1 ≤ unwrap_or o (max S.physical 1)
      workers none h = omega arith
      workers (some zero) h = absurd (h refl)
      workers (some (suc n)) h = omega arith
