-- ===== src/Memory/Files/RoundTrip.antt =====
-- memory/store.go: what is put in the file store is got from it.
use mathlib.Core.List.{append_cancel_right}
use deepagent.Base.{
  List, ◌∷◌, ◌++◌, All, ◌≡◌, ◌≢◌, refl, ap, ◌∙◌, sym, subst, arith, inl, inr, true, false, ◌&&◌,
  Option, none, some, [], if◌then◌else◌, Bool-cases,
}
use deepagent.Base.Text.{Str, lit, str_eq, str_eq_iff}
use deepagent.Agent.Types.{Result, ok, err}
use deepagent.Memory.Redis.{Codec}
use deepagent.Memory.Redis.Refinement.{ReadsBack}
use deepagent.Memory.Files.{
  Os, join_any, first_error, path_of, checked, parsed, value_in, get_checked, file_get, put_checked,
  file_put,
}
use deepagent.Base.Path.{parts}
use deepagent.Base.Path.Laws.{IsDown, json_name}
use deepagent.Memory.Files.Paths.{
  accepted-plain, pieces_of, IsAt, directory-IsAt, file-IsAt, not-below, pieces-injective,
}

-- What the store relies on of the files below its directory, told apart by the components of their
-- paths: a write that returns no error is read back, it leaves the other files, and making a directory
-- leaves the files that are neither the directory nor above it.
pub record KeepsFiles {W : Type 0} (os : Os W) (dir : Str) : Type 0 where
  pub read_same :
      (ws : List Str) (path path' text : Str) (w : W)
      → IsAt dir ws path
      → IsAt dir ws path'
      → (os.write_file path text w).0 ≡ none
      → os.read_file path' (os.write_file path text w).1 ≡ ok (some text)
  pub read_other :
      (ws ws' : List Str) (path path' text : Str) (w : W)
      → IsAt dir ws path
      → IsAt dir ws' path'
      → ws ≢ ws'
      → (os.write_file path text w).0 ≡ none
      → os.read_file path' (os.write_file path text w).1 ≡ os.read_file path' w
  pub read_mkdir :
      (ws ws' : List Str) (made path : Str) (w : W)
      → IsAt dir ws made
      → IsAt dir ws' path
      → ((more : List Str) → ws ≢ ws' ++ more)
      → os.read_file path (os.mkdir_all made w) ≡ os.read_file path w

differing : (s t : Str) → str_eq s t ≡ false → s ≢ t
differing s t h e = let same = (str_eq_iff s t).1 e in cc (h, same)

-- Both checks pass.
both_pass : (o p : Option Str) → first_error o p ≡ none → (o ≡ none) × (p ≡ none)
both_pass none p h = (refl, h)
both_pass (some e) p h = cc

both_equal : (s s' t t' : Str) → (str_eq s s' && str_eq t t') ≡ true → (s ≡ s') × (t ≡ t')
both_equal s s' t t' h = ((str_eq_iff s s').0 (ground arith), (str_eq_iff t t').0 (ground arith))

both_differ : (s s' t t' : Str) → (str_eq s s' && str_eq t t') ≡ false → (s ≡ s') × (t ≡ t') → ⊥
both_differ s s' t t' h (e, e') =
    let one = (str_eq_iff s s').1 e in let two = (str_eq_iff t t').1 e' in ground arith

module _ {W V : Type 0} (os : Os W) (codec : Codec V) (quote : Str → Str) (dir : Str) where
  -- The components of the file of a key.
  abbrev pieces : Str → Str → List Str
  pieces namespace key = pieces_of namespace ++ json_name key ∷ []

  path_of-IsAt :
      (namespace key : Str)
      → All IsDown (parts dir)
      → dir ≢ []
      → checked os codec quote dir namespace key ≡ none
      → IsAt dir (pieces namespace key) (path_of os codec quote dir namespace key)
  unfolding path_of
  path_of-IsAt namespace key steps full h =
      let (valid, plain) = both_pass _ _ h in
      file-IsAt quote (lit "namespace") dir namespace steps key full valid
        (accepted-plain quote key (lit "key") plain)

  pieces-apart :
      (namespace key namespace' key' : Str)
      → (str_eq namespace namespace' && str_eq key key') ≡ false
      → pieces namespace key ≢ pieces namespace' key'
  pieces-apart namespace key namespace' key' differ e =
      let (same, names) =
        pieces-injective namespace namespace' (json_name key) (json_name key') e in
      both_differ namespace namespace' key key' differ
        (same, append_cancel_right key key' (lit ".json") names)

  -- A put that returns no error has written the text of the value.
  put_checked-none :
      (bad : Option Str) (marshalled : Result Str) (namespace key : Str) (value : V) (w : W)
      → codec.marshal value ≡ marshalled
      → (put_checked os codec quote dir bad namespace key value w).0 ≡ none
      → (text : Str) × (bad ≡ none)
        × (marshalled ≡ ok text)
        × ((put_checked os codec quote dir bad namespace key value w)
            ≡ os.write_file
                (path_of os codec quote dir namespace key)
                text
                (os.mkdir_all (join_any dir namespace) w))
  put_checked-none (some e) m namespace key value w same h = cc
  put_checked-none none (err e) namespace key value w same h = cc (rw same at h)
  put_checked-none none (ok text) namespace key value w same h = (text, refl, refl, rw same refl)

  -- A file that holds the text of a value reads as the value.
  value_in-text :
      (found : Result (Option Str)) (text : Str) (value : V)
      → found ≡ ok (some text)
      → codec.unmarshal text ≡ ok value
      → value_in os codec quote dir found ≡ ok (some value)
  value_in-text found text value there back = rw there (ap (parsed os codec quote dir) back)

  -- A key that is refused is refused before the disk is looked at.
  get_checked-same :
      (bad : Option Str) (path : Str) (w w' : W)
      → (bad ≡ none → os.read_file path w ≡ os.read_file path w')
      → get_checked os codec quote dir bad path w ≡ get_checked os codec quote dir bad path w'
  get_checked-same none path w w' h = ap (value_in os codec quote dir) (h refl)
  get_checked-same (some e) path w w' h = refl

  -- In a directory that has a name without steps up, on files that are kept and with values that JSON
  -- reads back, after a put that returns no error a get at the same namespace and key returns the value,
  -- and any other get at a namespace that has a name returns what it returned before.
  pub file_get-file_put :
      (keeps : KeepsFiles os dir) (json : ReadsBack codec) (namespace key : Str) (value : V)
      (namespace' key' : Str) (w : W)
      → All IsDown (parts dir)
      → dir ≢ []
      → namespace' ≢ []
      → (file_put os codec quote dir namespace key value w).0 ≡ none
      → file_get os codec quote dir namespace' key'
          (file_put os codec quote dir namespace key value w).1
        ≡ (if str_eq namespace namespace' && str_eq key key'
            then ok (some value)
            else file_get os codec quote dir namespace' key' w)
  unfolding file_get file_put
  file_get-file_put keeps json namespace key value namespace' key' w steps full named h =
      let check = checked os codec quote dir in
      let path = path_of os codec quote dir in
      let (text, valid, marshalled, put) =
        put_checked-none (check namespace key) (codec.marshal value) namespace key value w refl h in
      let here = path_of-IsAt namespace key steps full valid in
      let (valid_name, _) = both_pass _ _ valid in
      let directory = directory-IsAt quote (lit "namespace") dir namespace steps full valid_name in
      let made = os.mkdir_all (join_any dir namespace) w in
      let after = (os.write_file (path namespace key) text made).1 in
      let no_error : (os.write_file (path namespace key) text made).0 ≡ none =
        ap (λ (r : Option Str × W). r.0) (sym put) ∙ h in
      let moved =
        ap
          (λ (r : Option Str × W).
            get_checked os codec quote dir (check namespace' key') (path namespace' key') r.1)
          put in
      moved ∙ elim (Bool-cases (str_eq namespace namespace' && str_eq key key')) [
        | inl same ↦
            let (this, that) = both_equal namespace namespace' key key' same in
            let there : os.read_file (path namespace' key') after ≡ ok (some text) =
              subst (λ p. os.read_file p after ≡ ok (some text)) (λ i. path (this i) (that i))
                (keeps.read_same _ (path namespace key) (path namespace key) text made here here
                  no_error) in
            rw same (
              ap (λ bad. get_checked os codec quote dir bad (path namespace' key') after)
                ((λ i. check (sym this i) (sym that i)) ∙ valid)
              ∙ value_in-text _ text value there (json.reads_back value text marshalled))
        | inr differ ↦ rw differ (
            get_checked-same (check namespace' key') (path namespace' key') after w (λ accepted.
              let other = path_of-IsAt namespace' key' steps full accepted in
              keeps.read_other _ _ (path namespace key) (path namespace' key') text made here other
                (pieces-apart namespace key namespace' key' differ) no_error
              ∙ keeps.read_mkdir _ _ (join_any dir namespace) (path namespace' key') w directory
                  other (λ more. not-below namespace namespace' (json_name key') more named)))
      ]
