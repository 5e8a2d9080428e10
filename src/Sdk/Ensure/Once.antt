-- ===== src/Sdk/Ensure/Once.antt =====
-- ensureSDK settles a version with its first attempt.
use gobuild.Common.{
  ◌≡◌, ◌≢◌, refl, true, false, Option, none, some, List, ◌⊎◌, inl, inr, Bytes, eq_bytes_self, arith,
  Bool-cases, Result, ok, err,
}
use gobuild.Sdk.Versions.{GoVersion}
use gobuild.Sdk.Ensure.{
  SdkError, listing_failed, no_release_file, no_temp_dir, fetch_failed, not_in_place,
  no_such_version, Sdk, Releases, allowed, gives_up, put_in, is_release, install, list_and_install,
  zero_version, returned, fetch_sdk, ensure_sdk, installed_or_fetch,
}

-- A version whose fetch has succeeded is installed.
abbrev pub IsSound : Sdk → Type 0
IsSound st = (t : Bytes) → st.status t ≡ some none → st.installed t ≡ true

-- An installation gives up, or the toolchain is in its place.
install-cases :
    (r : Releases) (v : GoVersion) (text : Bytes) (st : Sdk)
    → ((e : SdkError) × (install r v text st ≡ gives_up text e st))
      ⊎ (install r v text st ≡ (put_in text st, ok v))
unfolding install
install-cases r v text st = elim (Bool-cases r.file_fails) [
  | inl a ↦ inl (no_release_file, rw a refl)
  | inr a ↦ elim (Bool-cases r.temp_dir_fails) [
    | inl b ↦ inl (no_temp_dir, rw (a, b) refl)
    | inr b ↦ elim (Bool-cases r.fetch_fails) [
      | inl c ↦ inl (fetch_failed, rw (a, b, c) refl)
      | inr c ↦ elim (Bool-cases r.rename_fails) [
        | inl d ↦ inl (not_in_place, rw (a, b, c, d) refl)
        | inr d ↦ inr (rw (a, b, c, d) refl)
      ]
    ]
  ]
]

-- What a call of ensureSDK comes to.
data IsOutcome (v : GoVersion) (text : Bytes) (st : Sdk)
    : Sdk × Result SdkError GoVersion → Type 0 where
  was_installed : st.installed text ≡ true → IsOutcome v text st (st, ok v)
  was_fetched :
      (o : Option SdkError)
      → st.installed text ≡ false
      → st.status text ≡ some o
      → IsOutcome v text st (st, returned o)
  given_up : (e : SdkError) → st.installed text ≡ false → IsOutcome v text st (gives_up text e st)
  unknown_version : IsOutcome v text st (st, err no_such_version)
  put_in_place : IsOutcome v text st (put_in text st, ok v)

module _ (v : GoVersion) (text : Bytes) (st : Sdk) (r : Releases) where
  fetch_sdk-IsOutcome : st.installed text ≡ false → IsOutcome v text st (fetch_sdk r v text st)
  fetch_sdk-IsOutcome n = go (st.status text) refl
    where
      listed : (o : Option (List Bytes)) → IsOutcome v text st (list_and_install o r v text st)
      listed none = given_up listing_failed n
      listed (some rs) = elim (Bool-cases (is_release text rs)) [
        | inl known ↦ elim (install-cases r v text st) [
          | inl (e, f) ↦ rw (known, f) (given_up e n)
          | inr f ↦ rw (known, f) put_in_place
        ]
        | inr other ↦ rw other unknown_version
      ]

      go :
          (o : Option (Option SdkError))
          → st.status text ≡ o
          → IsOutcome v text st (fetch_sdk r v text st)
      go none e = unfold fetch_sdk in rw (e, fetch_sdk) (listed r.listed)
      go (some o) e = unfold fetch_sdk in rw (e, fetch_sdk) (was_fetched o n e)

  installed_or_fetch-IsOutcome : IsOutcome v text st (installed_or_fetch r text st (ok v))
  installed_or_fetch-IsOutcome = elim (Bool-cases (st.installed text)) [
    | inl there ↦ rw there (was_installed there)
    | inr missing ↦ rw missing (fetch_sdk-IsOutcome missing)
  ]

-- The same call again, with any answers from outside, changes nothing and returns the same.
abbrev IsSettled : GoVersion → Bytes → Sdk × Result SdkError GoVersion → Type 0
IsSettled v text x = (r : Releases) → installed_or_fetch r text x.0 (ok v) ≡ x

IsOutcome-IsSettled :
    (v : GoVersion) (text : Bytes) (st : Sdk) (x : Sdk × Result SdkError GoVersion)
    → IsSound st
    → IsOutcome v text st x
    → x.1 ≢ err no_such_version
    → IsSettled v text x
IsOutcome-IsSettled v text st _ s (was_installed i) n r = rw i refl
IsOutcome-IsSettled v text st _ s (was_fetched none i e) n r = absurd (ground (arith, s text e))
IsOutcome-IsSettled v text st _ s (was_fetched (some e) i k) n r =
    rw i (unfold fetch_sdk in rw (k, fetch_sdk) refl)
IsOutcome-IsSettled v text st _ s (given_up e i) n r =
    rw i (unfold fetch_sdk in rw (eq_bytes_self text, fetch_sdk) refl)
IsOutcome-IsSettled v text st _ s unknown_version n r = absurd (n refl)
IsOutcome-IsSettled v text st _ s put_in_place n r = rw (eq_bytes_self text) refl

-- After a first attempt that did not end with an unknown version, ensureSDK returns the same
-- again, success or failure, and changes nothing, whatever the releases are by then, if at first
-- every version whose fetch has succeeded was installed.
pub ensure_sdk-again :
    (stop : Option GoVersion) (r r' : Releases) (text : Bytes) (st : Sdk)
    → IsSound st
    → (ensure_sdk stop r text st).1 ≢ err no_such_version
    → ensure_sdk stop r' text (ensure_sdk stop r text st).0 ≡ ensure_sdk stop r text st
ensure_sdk-again stop r r' text st s n = go (allowed stop text) refl
  where
    go :
        (x : Result SdkError GoVersion)
        → allowed stop text ≡ x
        → ensure_sdk stop r' text (ensure_sdk stop r text st).0 ≡ ensure_sdk stop r text st
    go (err e) k = unfold ensure_sdk in rw k refl
    go (ok v) k =
        unfold ensure_sdk in
        rw k (
          IsOutcome-IsSettled v text st _ s (installed_or_fetch-IsOutcome v text st r)
            (λ q. n (unfold ensure_sdk in rw k q)) r')

IsOutcome-IsSound :
    (v : GoVersion) (text : Bytes) (st : Sdk) (x : Sdk × Result SdkError GoVersion)
    → IsSound st
    → IsOutcome v text st x
    → IsSound x.0
IsOutcome-IsSound v text st _ s (was_installed i) = s
IsOutcome-IsSound v text st _ s (was_fetched o i k) = s
IsOutcome-IsSound v text st _ s (given_up e i) = λ t k. ground (arith, s t)
IsOutcome-IsSound v text st _ s unknown_version = s
IsOutcome-IsSound v text st _ s put_in_place = λ t k. ground (arith, s t)

-- ensureSDK keeps what holds from the start: a version whose fetch has succeeded is installed.
pub ensure_sdk-IsSound :
    (stop : Option GoVersion) (r : Releases) (text : Bytes) (st : Sdk)
    → IsSound st
    → IsSound (ensure_sdk stop r text st).0
ensure_sdk-IsSound stop r text st s = go (allowed stop text) refl
  where
    go :
        (x : Result SdkError GoVersion)
        → allowed stop text ≡ x
        → IsSound (ensure_sdk stop r text st).0
    go (err e) k = unfold ensure_sdk in rw k s
    go (ok v) k =
        unfold ensure_sdk in
        rw k (IsOutcome-IsSound v text st _ s (installed_or_fetch-IsOutcome v text st r))

fetched_twice :
    (r : Releases) (v : GoVersion) (text : Bytes) (st : Sdk) (x : Sdk × Result SdkError GoVersion)
    → st.status text ≡ none
    → st.installed text ≡ false
    → IsOutcome v text st x
    → x.1 ≡ ok v
    → (fetch_sdk r v text x.0).1 ≡ ok zero_version
fetched_twice r v text st _ n i (was_installed j) h = absurd (ground arith)
fetched_twice r v text st _ n i (was_fetched o j k) h = absurd (ground arith)
fetched_twice r v text st _ n i (given_up e j) h = absurd (cc)
fetched_twice r v text st _ n i unknown_version h = absurd (cc)
fetched_twice r v text st _ n i put_in_place h =
    unfold fetch_sdk in rw (eq_bytes_self text, fetch_sdk) refl

-- A goroutine that has seen that a version is not installed, and then waits until another has
-- fetched it, gets the zero version and no error.
pub fetch_sdk_after_wait :
    (r r' : Releases) (v : GoVersion) (text : Bytes) (st : Sdk)
    → st.installed text ≡ false
    → st.status text ≡ none
    → (fetch_sdk r v text st).1 ≡ ok v
    → (fetch_sdk r' v text (fetch_sdk r v text st).0).1 ≡ ok zero_version
fetch_sdk_after_wait r r' v text st i n h =
    fetched_twice r' v text st _ n i (fetch_sdk-IsOutcome v text st r i) h
