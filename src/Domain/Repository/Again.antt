-- ===== src/Domain/Repository/Again.antt =====
-- Metadata that crates/north-domain/src/repository.rs has validated is validated again as it is.
use north.Common.{
  ℕ, ◌≤◌, any, is_whitespace, ◌≡◌, subst, List, Bool, not, true, false, Result, ok, >>-ok,
  refuse_if, ◌>>◌, is_empty, ltb, arith, refl,
}
use north.Common.Slices.{trim, text_len}
use north.Common.Slices.Trimming.{trim-trim}
use north.Domain.Repository.Locations.{IsLocation, supported_git_url-IsLocation}
use north.Domain.Repository.{
  RepositoryMetadata, RepositoryError, empty_name, name_too_long, description_too_long, empty_url,
  url_too_long, invalid_url, supported_git_url, metadata, validate_trimmed, validate_metadata,
  max_name_bytes, max_url_bytes, max_description_bytes,
}

module _ (to_lowercase : List ℕ → List ℕ) where
  -- What the checks have found of texts that they accept.
  pub record IsAccepted (name url description : List ℕ) (m : RepositoryMetadata) : Type 0 where
    pub named : is_empty name ≡ false
    pub short_name : ltb max_name_bytes (text_len name) ≡ false
    pub short_description : ltb max_description_bytes (text_len description) ≡ false
    pub short_url : ltb max_url_bytes (text_len url) ≡ false
    pub supported : supported_git_url url ≡ true
    pub same : metadata to_lowercase name url description ≡ m

  refused-false : (b : Bool) (e : RepositoryError) → refuse_if b e ≡ ok tt → b ≡ false
  refused-false true e h = absurd (cc h)
  refused-false false e h = refl

  validate_trimmed-IsAccepted :
      (name url description : List ℕ) (m : RepositoryMetadata)
      → validate_trimmed to_lowercase name url description ≡ ok m
      → IsAccepted name url description m
  unfolding validate_trimmed
  validate_trimmed-IsAccepted name url description m h =
      let result : Result RepositoryMetadata RepositoryError =
        ok (metadata to_lowercase name url description) in
      let sixth = refuse_if (not (supported_git_url url)) invalid_url >> result in
      let fifth = refuse_if (ltb max_url_bytes (text_len url)) url_too_long >> sixth in
      let fourth = refuse_if (is_empty url) empty_url >> fifth in
      let third =
        refuse_if (ltb max_description_bytes (text_len description)) description_too_long
        >> fourth in
      let second = refuse_if (ltb max_name_bytes (text_len name)) name_too_long >> third in
      let (a, h2) = >>-ok (refuse_if (is_empty name) empty_name) second h in
      let (b, h3) = >>-ok (refuse_if (ltb max_name_bytes (text_len name)) name_too_long) third h2 in
      let (c, h4) =
        >>-ok (refuse_if (ltb max_description_bytes (text_len description)) description_too_long)
          fourth h3 in
      let (d, h5) = >>-ok (refuse_if (is_empty url) empty_url) fifth h4 in
      let (e, h6) = >>-ok (refuse_if (ltb max_url_bytes (text_len url)) url_too_long) sixth h5 in
      let (f, h7) = >>-ok (refuse_if (not (supported_git_url url)) invalid_url) result h6 in
      let equal : metadata to_lowercase name url description ≡ m = ground (arith, h7) in
      record {
        named = refused-false (is_empty name) empty_name a;
        short_name = refused-false (ltb max_name_bytes (text_len name)) name_too_long b;
        short_description =
            refused-false (ltb max_description_bytes (text_len description)) description_too_long c;
        short_url = refused-false (ltb max_url_bytes (text_len url)) url_too_long e;
        supported =
            is_not-true (supported_git_url url)
              (refused-false (not (supported_git_url url)) invalid_url f);
        same = equal;
      }
    where
      is_not-true : (b : Bool) → not b ≡ false → b ≡ true
      is_not-true true h = refl
      is_not-true false h = absurd (cc h)

  -- Validated metadata is in normal form: whenever a name, a location and a description are accepted,
  -- the three texts of the result are accepted again, with the same result.
  pub validate_metadata_again :
      (name url description : List ℕ) (m : RepositoryMetadata)
      → validate_metadata to_lowercase name url description ≡ ok m
      → validate_metadata to_lowercase m.name m.url m.description ≡ ok m
  unfolding validate_metadata
  validate_metadata_again name url description m h =
      let same = (validate_trimmed-IsAccepted (trim name) (trim url) (trim description) m h).same in
      let again : validate_metadata to_lowercase (trim name) (trim url) (trim description) ≡ ok m =
        rw (trim-trim name) (rw (trim-trim url) (rw (trim-trim description) h)) in
      subst
        (λ (n : RepositoryMetadata).
          validate_metadata to_lowercase n.name n.url n.description ≡ ok m)
        same again

  -- Metadata that is accepted is within its bounds and safe to store: the name is not empty and has at
  -- most 100 bytes, the description has at most 10,000 and the location at most 2,048 bytes; the
  -- location carries no credentials and no white space, and its path no query and no fragment.
  pub validate_metadata-IsLocation :
      (name url description : List ℕ) (m : RepositoryMetadata)
      → validate_metadata to_lowercase name url description ≡ ok m
      → (is_empty m.name ≡ false)
        × (text_len m.name ≤ 100)
        × (text_len m.description ≤ 10000)
        × (text_len m.url ≤ 2048)
        × IsLocation m.url
        × (any is_whitespace m.url ≡ false)
  unfolding validate_metadata
  validate_metadata-IsLocation name url description m h =
      let found = validate_trimmed-IsAccepted (trim name) (trim url) (trim description) m h in
      let (shaped, narrow) = supported_git_url-IsLocation (trim url) found.supported in
      subst
        (λ (n : RepositoryMetadata).
          (is_empty n.name ≡ false)
          × (text_len n.name ≤ 100)
          × (text_len n.description ≤ 10000)
          × (text_len n.url ≤ 2048)
          × IsLocation n.url
          × (any is_whitespace n.url ≡ false))
        found.same
        (
          found.named,
          not_above 100 (text_len (trim name)) found.short_name,
          not_above 10000 (text_len (trim description)) found.short_description,
          not_above 2048 (text_len (trim url)) found.short_url,
          shaped,
          narrow,
        )
    where
      not_above : (limit n : ℕ) → ltb limit n ≡ false → n ≤ limit
      not_above limit n h = ground arith
