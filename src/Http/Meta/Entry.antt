-- ===== src/Http/Meta/Entry.antt =====
-- What one entry under a known key does to the description of an `HttpMeta`.
use ferredge.Prelude.{
  ◌≡◌, refl, sym, true, false, String, Option, none, some, List, [], ◌∷◌, ◌++◌, Result, ◌>>=◌,
  ok_option, and_then, Result-cases, inl, inr, ℕ,
}
use ferredge.Core.Headers.{Headers}
use ferredge.Core.Meta.{MetaValue, Entries}
use ferredge.Core.Meta.Fields.{
  contains, field_at, field_at_skip, field_at_other, field_at_own, field_at_first,
}
use ferredge.Http.Types.{HttpMeta, HttpCommandConversionError}
use ferredge.Http.Meta.{
  key_method, key_path, key_status_code, key_content_type, expect_str, expect_u64, status_of_u64,
  decode_entry,
}

abbrev pub status_value : MetaValue → Result ℕ HttpCommandConversionError
status_value value = expect_u64 key_status_code value >>= status_of_u64

-- The four fields put together; one that is ill-typed spoils the view.
abbrev pub assemble :
    Option Headers
    → Option (Option String)
    → Option (Option String)
    → Option (Option ℕ)
    → Option (Option String)
    → Option HttpMeta
assemble headers (some m) (some p) (some s) (some c) =
    some (record { method = m; path = p; status_code = s; content_type = c; headers = headers })
assemble headers _ _ _ _ = none

abbrev pub reference_from : List String → HttpMeta → Entries → Option HttpMeta
reference_from seen view entries =
    assemble view.headers (field_at (expect_str key_method) seen entries key_method view.method)
      (field_at (expect_str key_path) seen entries key_path view.path)
      (field_at status_value seen entries key_status_code view.status_code)
      (field_at (expect_str key_content_type) seen entries key_content_type view.content_type)

pub skip :
    (seen : List String) (view : HttpMeta) (key : String) (value : MetaValue) (entries : Entries)
    → contains seen key ≡ true
    → reference_from seen view ((key, value) ∷ entries) ≡ reference_from seen view entries
skip seen view key value entries h =
    rw
      (
        field_at_skip (expect_str key_method) seen entries key key_method value view.method h,
        field_at_skip (expect_str key_path) seen entries key key_path value view.path h,
        field_at_skip status_value seen entries key key_status_code value view.status_code h,
        field_at_skip (expect_str key_content_type) seen entries key key_content_type value
            view.content_type h,
      )
      refl

pub assemble_bad_path :
    (h : Option Headers) (m : Option (Option String)) (s : Option (Option ℕ))
    (c : Option (Option String))
    → assemble h m none s c ≡ none
assemble_bad_path h none s c = refl
assemble_bad_path h (some m) s c = refl

pub assemble_bad_status :
    (h : Option Headers) (m p c : Option (Option String)) → assemble h m p none c ≡ none
assemble_bad_status h none p c = refl
assemble_bad_status h (some m) none c = refl
assemble_bad_status h (some m) (some p) c = refl

pub assemble_bad_type :
    (h : Option Headers) (m p : Option (Option String)) (s : Option (Option ℕ))
    → assemble h m p s none ≡ none
assemble_bad_type h none p s = refl
assemble_bad_type h (some m) none s = refl
assemble_bad_type h (some m) (some p) none = refl
assemble_bad_type h (some m) (some p) (some s) = refl

abbrev pub continue : List String → HttpMeta → String → MetaValue → Entries → Option HttpMeta
continue seen view key value entries =
    and_then (ok_option (decode_entry view key value))
      (λ view'. reference_from (seen ++ key ∷ []) view' entries)

module _ (seen : List String) (view : HttpMeta) (value : MetaValue) (entries : Entries) where
  pub own_method :
      contains seen key_method ≡ false
      → continue seen view key_method value entries
        ≡ reference_from seen view ((key_method, value) ∷ entries)
  unfolding decode_entry
  own_method h =
      rw
        (
          field_at_first (expect_str key_method) seen entries key_method value view.method h,
          ← field_at_other (expect_str key_path) seen entries key_method key_path value view.path
              refl,
          ← field_at_other status_value seen entries key_method key_status_code value
              view.status_code refl,
          ← field_at_other (expect_str key_content_type) seen entries key_method key_content_type
              value view.content_type refl,
        )
        (elim (Result-cases (expect_str key_method value)) [
          | inl (v, e) ↦
              rw (e, field_at_own (expect_str key_method) seen entries key_method (some v)) refl
          | inr (x, e) ↦ rw e refl
        ])

  pub own_path :
      contains seen key_path ≡ false
      → continue seen view key_path value entries
        ≡ reference_from seen view ((key_path, value) ∷ entries)
  unfolding decode_entry
  own_path h =
      rw
        (
          field_at_first (expect_str key_path) seen entries key_path value view.path h,
          ← field_at_other (expect_str key_method) seen entries key_path key_method value
              view.method refl,
          ← field_at_other status_value seen entries key_path key_status_code value view.status_code
              refl,
          ← field_at_other (expect_str key_content_type) seen entries key_path key_content_type
              value view.content_type refl,
        )
        (elim (Result-cases (expect_str key_path value)) [
          | inl (v, e) ↦
              rw (e, field_at_own (expect_str key_path) seen entries key_path (some v)) refl
          | inr (x, e) ↦ rw e (sym (assemble_bad_path _ _ _ _))
        ])

  pub own_status :
      contains seen key_status_code ≡ false
      → continue seen view key_status_code value entries
        ≡ reference_from seen view ((key_status_code, value) ∷ entries)
  unfolding decode_entry
  own_status h =
      rw
        (
          field_at_first status_value seen entries key_status_code value view.status_code h,
          ← field_at_other (expect_str key_method) seen entries key_status_code key_method value
              view.method refl,
          ← field_at_other (expect_str key_path) seen entries key_status_code key_path value
              view.path refl,
          ← field_at_other (expect_str key_content_type) seen entries key_status_code
              key_content_type value view.content_type refl,
        )
        (elim (Result-cases (status_value value)) [
          | inl (v, e) ↦
              rw (e, field_at_own status_value seen entries key_status_code (some v)) refl
          | inr (x, e) ↦ rw e (sym (assemble_bad_status _ _ _ _))
        ])

  pub own_content_type :
      contains seen key_content_type ≡ false
      → continue seen view key_content_type value entries
        ≡ reference_from seen view ((key_content_type, value) ∷ entries)
  unfolding decode_entry
  own_content_type h =
      rw
        (
          field_at_first (expect_str key_content_type) seen entries key_content_type value
              view.content_type h,
          ← field_at_other (expect_str key_method) seen entries key_content_type key_method value
              view.method refl,
          ← field_at_other (expect_str key_path) seen entries key_content_type key_path value
              view.path refl,
          ← field_at_other status_value seen entries key_content_type key_status_code value
              view.status_code refl,
        )
        (elim (Result-cases (expect_str key_content_type value)) [
          | inl (v, e) ↦
              rw
                (
                  e,
                  field_at_own (expect_str key_content_type) seen entries key_content_type (some v),
                )
                refl
          | inr (x, e) ↦ rw e (sym (assemble_bad_type _ _ _ _))
        ])
