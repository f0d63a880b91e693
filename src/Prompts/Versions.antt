-- ===== src/Prompts/Versions.antt =====
-- wisetraceloom/prompts.py: what the table of versions keeps to, and that a hash is linked once.
use mathlib.Core.List.{append-nil}
use wisetraceloom.Prelude.{
  map-append, All-append, filter_by-append, filter_by-none, length-append, pair_Eq, ℕ, zero, suc,
  ◌+◌, ◌≤◌, ◌≡◌, ◌≢◌, inl, inr, refl, sym, ap, ◌∙◌, Bool, false, ◌&&◌, ◌==◌, if◌then◌else◌, Option,
  none, some, List, [], ◌∷◌, ◌++◌, map, Text, text_eq, text_eq_iff, text_eq_refl, text_Eq,
  option_Eq, nat_Eq, filter_by, All, length, arith, Bool-cases, Option-cases,
}
use mathlib.Core.Path.{subst}
use wisetraceloom.Sql.{Sql}
use wisetraceloom.Sql.Order.{select_first-none, select_first-one, length-select}
use wisetraceloom.Config.Upserts.{below_max}
use wisetraceloom.Prompts.{PromptVersion, Prompts, fingerprint_prompt}
use wisetraceloom.Prompts.Promotion.{find_hash, new_version, register_prompt_version}
use wisetraceloom.Evaluation.{Floats, Evaluation}

Version-set : IsSet PromptVersion
Version-set = hlevel

-- The version numbers of a slot, in the order of registration.
abbrev numbers : Text → List PromptVersion → List ℕ
numbers slot versions = map (λ v. v.version_number) (filter_by (λ v. v.slot_name == slot) versions)

-- 1, 2, …, n
abbrev up_to : ℕ → List ℕ
up_to zero = []
up_to (suc n) = up_to n ++ suc n ∷ []

-- Neither the primary key nor the hash in its slot is another version's.
abbrev IsOther : PromptVersion → PromptVersion → Type 0
IsOther v w =
    (v.id ≢ w.id) × ((w.slot_name == v.slot_name && w.content_hash == v.content_hash) ≡ false)

abbrev pub IsDistinct : List PromptVersion → Type 0
IsDistinct [] = Unit
IsDistinct (v ∷ versions) = All (λ w. IsOther w v) versions × IsDistinct versions

-- The versions are distinct, and each slot counts its own from 1 with no gap.
abbrev pub IsRegistered : List PromptVersion → Type 0
IsRegistered versions =
    IsDistinct versions
    × ((slot : Text)
        → numbers slot versions ≡ up_to (length (filter_by (λ v. v.slot_name == slot) versions)))

IsDistinct-append :
    (versions : List PromptVersion) (v : PromptVersion)
    → IsDistinct versions
    → All (λ w. IsOther v w) versions
    → IsDistinct (versions ++ v ∷ [])
IsDistinct-append [] v d o = (tt, tt)
IsDistinct-append (w ∷ versions) v d o = (
  All-append (λ x. IsOther x w) versions (v ∷ []) d.0 (o.0, tt),
  IsDistinct-append versions v d.1 o.1,
)

numbers-append :
    (slot : Text) (versions : List PromptVersion) (v : PromptVersion)
    → numbers slot (versions ++ v ∷ [])
      ≡ numbers slot versions ++ (if v.slot_name == slot then v.version_number ∷ [] else [])
unfolding filter_by
numbers-append slot versions v =
    ap (map (λ w. w.version_number)) (filter_by-append (λ w. w.slot_name == slot) versions (v ∷ []))
    ∙ map-append (λ w. w.version_number) (filter_by (λ w. w.slot_name == slot) versions) _
    ∙ ground arith

apart_from :
    (v : PromptVersion) (versions : List PromptVersion)
    → All (λ n. n + 1 ≤ v.id) (map (λ w. w.id) versions)
    → All (λ w. (w.slot_name == v.slot_name && w.content_hash == v.content_hash) ≡ false) versions
    → All (λ w. IsOther v w) versions
apart_from v [] b h = tt
apart_from v (w ∷ versions) b h = ((λ p. omega (arith, b.0), h.0), apart_from v versions b.1 h.1)

up_to-next : (n m : ℕ) → m ≡ n + 1 → up_to m ≡ up_to n ++ m ∷ []
up_to-next n m e =
    let next : m ≡ suc n = omega (arith, e) in
    ap up_to next ∙ ap (λ k. up_to n ++ k ∷ []) (sym next)

numbers-next :
    (versions : List PromptVersion) (v : PromptVersion) (slot : Text)
    → v.version_number ≡ length (filter_by (λ w. w.slot_name == v.slot_name) versions) + 1
    → numbers slot versions ≡ up_to (length (filter_by (λ w. w.slot_name == slot) versions))
    → numbers slot (versions ++ v ∷ [])
      ≡ up_to (length (filter_by (λ w. w.slot_name == slot) (versions ++ v ∷ [])))
unfolding filter_by
numbers-next versions v slot n h =
    let here : PromptVersion → Bool = λ w. w.slot_name == slot in
    rw (numbers-append slot versions v, filter_by-append here versions (v ∷ []))
      (elim (Bool-cases (text_eq v.slot_name slot)) [
        | inr f ↦ rw (f, append-nil (numbers slot versions), append-nil (filter_by here versions)) h
        | inl t ↦
            let same : v.slot_name ≡ slot = (text_eq_iff v.slot_name slot).0 t in
            let m : v.version_number ≡ length (filter_by here versions) + 1 =
              n ∙ ap (λ s. length (filter_by (λ w. w.slot_name == s) versions) + 1) same in
            rw (t, h)
              (sym (up_to-next (length (filter_by here versions)) v.version_number m)
                ∙ ap up_to (m ∙ sym (length-append (filter_by here versions) (v ∷ []))))
      ])

module _ (sql : Sql) (strftime : ℕ → Text) where
  fresh-IsOther :
      (slot hash : Text) (now : ℕ) (versions : List PromptVersion)
      → find_hash sql slot hash versions ≡ none
      → All (λ w. IsOther (new_version sql strftime slot hash now versions) w) versions
  unfolding new_version find_hash
  fresh-IsOther slot hash now versions e =
      apart_from (new_version sql strftime slot hash now versions) versions
        (below_max sql (map (λ v. v.id) versions))
        (select_first-none sql PromptVersion _ versions e)

  fresh-numbers :
      (slot hash : Text) (now : ℕ) (versions : List PromptVersion) (other : Text)
      → numbers other versions ≡ up_to (length (filter_by (λ v. v.slot_name == other) versions))
      → let all : List PromptVersion =
          versions ++ new_version sql strftime slot hash now versions ∷ [] in
        numbers other all ≡ up_to (length (filter_by (λ v. v.slot_name == other) all))
  unfolding new_version
  fresh-numbers slot hash now versions other h =
      numbers-next versions (new_version sql strftime slot hash now versions) other
        (ap (λ n. n + 1) (length-select sql PromptVersion (λ v. v.slot_name == slot) versions)) h

  find_hash-new :
      (slot hash : Text) (now : ℕ) (versions : List PromptVersion)
      → find_hash sql slot hash versions ≡ none
      → let v : PromptVersion = new_version sql strftime slot hash now versions in
        find_hash sql slot hash (versions ++ v ∷ []) ≡ some v
  unfolding find_hash filter_by new_version
  find_hash-new slot hash now versions e =
      let v = new_version sql strftime slot hash now versions in
      let here : PromptVersion → Bool = λ w. w.slot_name == slot && w.content_hash == hash in
      let before : filter_by here versions ≡ [] =
        filter_by-none here versions (select_first-none sql PromptVersion here versions e) in
      select_first-one sql PromptVersion Version-set here (versions ++ v ∷ []) v (
        filter_by-append here versions (v ∷ [])
        ∙ ap (λ l. l ++ filter_by here (v ∷ [])) before
        ∙ rw (text_eq_refl slot, text_eq_refl hash) refl)

module _ (sql : Sql) (sha256 : Text → Text) (strftime : ℕ → Text) (floats : Floats)
    {D : Type 0} where
  open floats use {F}

  -- A registration keeps the primary keys distinct and the hashes distinct in each slot, and the
  -- version numbers of each slot 1, 2, 3 and so on with no gap.
  pub register_prompt_version-IsRegistered :
      (slot template : Text) (params_json : Option Text) (now : ℕ) (p : Prompts)
      (e : Evaluation D F)
      → IsRegistered p.versions
      → IsRegistered
          (register_prompt_version sql sha256 strftime floats slot template params_json now p
            e).1.versions
  unfolding register_prompt_version
  register_prompt_version-IsRegistered slot template params_json now p e r =
      let hash = fingerprint_prompt sha256 template params_json in
      elim (Option-cases (find_hash sql slot hash p.versions)) [
        | inr (v, f) ↦ rw (f, register_prompt_version) r
        | inl f ↦
            rw (f, register_prompt_version)
              (
                IsDistinct-append p.versions _ r.0
                    (fresh-IsOther sql strftime slot hash now p.versions f),
                λ other. fresh-numbers sql strftime slot hash now p.versions other (r.1 other),
              )
      ]

  linked :
      (slot template : Text) (params : Option Text) (now : ℕ) (p : Prompts) (e : Evaluation D F)
      → (v : PromptVersion)
      → find_hash sql slot (fingerprint_prompt sha256 template params) p.versions ≡ some v
      → register_prompt_version sql sha256 strftime floats slot template params now p e ≡ (v, p, e)
  unfolding register_prompt_version
  linked slot template params now p e v f = rw (register_prompt_version, f) refl

  find_hash-register_prompt_version :
      (slot template : Text) (params : Option Text) (now : ℕ) (p : Prompts) (e : Evaluation D F)
      → let first =
          register_prompt_version sql sha256 strftime floats slot template params now p e in
        find_hash sql slot (fingerprint_prompt sha256 template params) first.1.versions
        ≡ some first.0
  unfolding register_prompt_version
  find_hash-register_prompt_version slot template params now p e =
      let hash = fingerprint_prompt sha256 template params in
      elim (Option-cases (find_hash sql slot hash p.versions)) [
        | inr (v, f) ↦ rw (f, register_prompt_version) f
        | inl f ↦
            rw (f, register_prompt_version) (find_hash-new sql strftime slot hash now p.versions f)
      ]

  -- A registration that follows one in the same slot with the same fingerprint returns the same
  -- version and changes nothing.
  pub register_prompt_version-again :
      (slot template template' : Text) (params params' : Option Text) (now now' : ℕ)
      → (p : Prompts) (e : Evaluation D F)
      → fingerprint_prompt sha256 template' params' ≡ fingerprint_prompt sha256 template params
      → let first =
          register_prompt_version sql sha256 strftime floats slot template params now p e in
        register_prompt_version sql sha256 strftime floats slot template' params' now' first.1
          first.2
        ≡ first
  register_prompt_version-again slot template template' params params' now now' p e same =
      let first = register_prompt_version sql sha256 strftime floats slot template params now p e in
      linked slot template' params' now' first.1 first.2 first.0 (
        subst (λ hash. find_hash sql slot hash first.1.versions ≡ some first.0) (sym same)
          (find_hash-register_prompt_version slot template params now p e))
