-- ===== src/RuleGo/Loading.antt =====
-- `Load` of rulego.go: the engines of all files that a pattern matches. The file system is a parameter:
-- `get_file_paths` walks the folder, `load_file` reads a file or returns nil.
use rulego.Prelude.{
  ℕ, String, ◌≡◌, refl, sym, ap, ◌∙◌, Bool, ◌||◌, Option, none, some, List, ◌++◌, if◌then◌else◌,
  ◌==◌, string_eq, nat_key,
}
use Prim.Native.String.{[], ◌∷◌, ◌++◌ as ◌+++◌}
use mathlib.Core.Path.{fun_ext}
use rulego.Prelude.Dict.{get}
use rulego.Result.{Result, ok, err, err-ne-ok}
use rulego.Chain.{RuleChainCtx}
use rulego.RuleGo.{RuleEngine, Engines, new_engine, new_rule_engine, store_engine, found_or_new}

-- `strings.HasSuffix`
unfoldable pub has_suffix : String → String → Bool
has_suffix [] suffix = suffix == ""
has_suffix (c ∷ s) suffix = let rest = has_suffix s suffix in (c ∷ s) == suffix || rest

unfoldable pub load_pattern : String → String
unfolding has_suffix
load_pattern path =
    if has_suffix path "*.json" || has_suffix path "*.JSON"
    then path
    else if has_suffix path "/" || has_suffix path "\\"
    then path +++ "*.json"
    else if path == ""
    then "./*.json"
    else path +++ "/*.json"

module _ {C : Type 0} (decode : String → Result (RuleChainCtx C)) where
  module _ (load_file : String → Option String) (self : ℕ) where
    -- A file that cannot be read is passed over.
    abbrev pub load_one : Engines decode → Option String → Engines decode × Option String
    unfolding new_engine
    load_one g none = (g, none)
    load_one g (some text) =
        let (g', result) = new_engine decode self g "" text in
        (g', elim result [ ok e ↦ none | err error ↦ some error ])

    abbrev pub and_load :
        Engines decode × Option String
        → (Engines decode → Engines decode × Option String)
        → Engines decode × Option String
    and_load (g, some error) later = (g, some error)
    and_load (g, none) later = later g

    -- The loop ends at the first file that makes no engine.
    unfoldable pub load_files : Engines decode → List String → Engines decode × Option String
    unfolding load_one
    load_files g List.[] = (g, none)
    load_files g (List.◌∷◌ path paths) =
        and_load (load_one g (load_file path)) (λ g'. load_files g' paths)

    and_load_assoc :
        (x : Engines decode × Option String) (f k : Engines decode → Engines decode × Option String)
        → and_load x (λ g. and_load (f g) k) ≡ and_load (and_load x f) k
    and_load_assoc (g, some error) f k = refl
    and_load_assoc (g, none) f k = refl

    load_files-append :
        (g : Engines decode) (paths rest : List String)
        → load_files g (paths ++ rest) ≡ and_load (load_files g paths) (λ g'. load_files g' rest)
    unfolding load_files load_one
    load_files-append g List.[] rest = refl
    load_files-append g (List.◌∷◌ path paths) rest =
        ap (and_load (load_one g (load_file path)))
          (fun_ext (λ g'. load_files-append g' paths rest))
        ∙ and_load_assoc (load_one g (load_file path)) (λ g'. load_files g' paths)
            (λ g'. load_files g' rest)

    store_engine-err :
        (g : Engines decode) (error : String) (made : Result (RuleEngine C))
        → (store_engine decode self g made).1 ≡ err error
        → store_engine decode self g made ≡ (g, err error)
    store_engine-err g error (ok e) h = absurd (err-ne-ok (sym h))
    store_engine-err g error (err text) h = ap (λ r. (g, r)) h

    -- What makes no engine leaves the pool alone.
    found_or_new-err :
        (g : Engines decode) (text error : String) (found : Option (RuleEngine C))
        → (found_or_new decode self g "" text found).1 ≡ err error
        → found_or_new decode self g "" text found ≡ (g, err error)
    unfolding new_rule_engine
    found_or_new-err g text error (some e) h = ap (λ r. (g, r)) h
    found_or_new-err g text error none h =
        store_engine-err g error (new_rule_engine decode "" text) h

  abbrev pub load_paths :
      (String → Option String)
      → ℕ
      → Engines decode
      → Result (List String)
      → Engines decode × Option String
  unfolding load_files
  load_paths load_file self g (err text) = (g, some text)
  load_paths load_file self g (ok paths) = load_files load_file self g paths

  unfoldable pub load :
      (String → Result (List String))
      → (String → Option String)
      → ℕ
      → Engines decode
      → String
      → Engines decode × Option String
  unfolding load_pattern load_paths
  load get_file_paths load_file self g folder_path =
      load_paths load_file self g (get_file_paths (load_pattern folder_path))

  -- For a file that can be read and whose text makes no engine, after files that load without an
  -- error: `Load` of the folder returns its error. The engines of the files before it stay in the
  -- pool, and the files after it are not looked at.
  pub load-stops :
      (get_file_paths : String → Result (List String)) (load_file : String → Option String)
      (self : ℕ) (g g' : Engines decode) (folder path text error : String)
      (paths rest : List String)
      → get_file_paths (load_pattern folder) ≡ ok (paths ++ List.◌∷◌ path rest)
      → load_files load_file self g paths ≡ (g', none)
      → load_file path ≡ some text
      → (new_engine decode self g' "" text).1 ≡ err error
      → load get_file_paths load_file self g folder ≡ (g', some error)
  unfolding load load_files load_one load_paths new_engine
  load-stops get_file_paths load_file self g g' folder path text error paths rest found before file
        bad =
      ap (load_paths load_file self g) found
      ∙ load_files-append load_file self g paths (List.◌∷◌ path rest)
      ∙ ap
          (λ x.
            and_load load_file self x (λ g''. load_files load_file self g'' (List.◌∷◌ path rest)))
          before
      ∙ rw (file, found_or_new-err load_file self g' text error (get "" g') bad) refl
