-- ===== src/Ir/Facts/RoundTrip.antt =====
-- auditzoo/core/ir/facts/base.py: a fact that is stored as a dict and read again.
use audit_zoo_bug_byters.Base.{
  Bool, true, false, ◌≡◌, refl, ◌∙◌, some, List, [], ◌∷◌, ◌++◌, Text, codes, text_eq, All,
  Bool-cases, inl, inr, if◌then◌else◌,
}
use audit_zoo_bug_byters.Base.Strings.Laws.{text_eq_refl, text_eq_sound}
use audit_zoo_bug_byters.Ir.Backend.{Exn, raised, ok}
use audit_zoo_bug_byters.Ir.Facts.{
  FactClass, unit_fact, relation_fact, register, register_all, registered, kwargs_or, build,
  from_dict, to_dict, deserialize_kind, deserialize_fact,
}

-- A guarded construction that has returned.
pub ok_guarded :
    {A : Type 0} (b : Bool) (e : Exn) (made a : A)
    → (if b then raised e else ok made) ≡ ok a
    → (b ≡ false) × (made ≡ a)
ok_guarded true e made a h = absurd (cc h)
ok_guarded false e made a h = (refl, cc h)

unlike : (k m n : Text) → text_eq k m ≡ false → text_eq k n ≡ true → text_eq m n ≡ false
unlike k m n apart same = elim (Bool-cases (text_eq m n)) [
  | inl e ↦ absurd (cc (apart, text_eq_sound m n e))
  | inr e ↦ e
]

module _ {K F : Type 0} where
  registered-register :
      (c : FactClass K F) (registry : List (Text × FactClass K F)) (n : Text)
      → registered (register c registry) n
        ≡ (if text_eq c.name n then some c else registered registry n)
  unfolding registered register
  registered-register c [] n = refl
  registered-register c ((k, d) ∷ registry) n = elim (Bool-cases (text_eq k c.name)) [
    | inl same ↦
        rw (same, text_eq_sound k c.name same)
          (elim (Bool-cases (text_eq c.name n)) [ inl e ↦ rw e refl | inr e ↦ rw e refl ])
    | inr apart ↦ elim (Bool-cases (text_eq k n)) [
      | inl e ↦ rw (apart, e, unlike k c.name n apart e) refl
      | inr e ↦ rw (apart, e) (registered-register c registry n)
    ]
  ]

  -- No class has a name.
  abbrev pub Unnamed : Text → List (FactClass K F) → Type 0
  Unnamed n cs = All (λ (c : FactClass K F). text_eq c.name n ≡ false) cs

  registered-register_all :
      (cs : List (FactClass K F)) (registry : List (Text × FactClass K F)) (n : Text)
      → Unnamed n cs
      → registered (register_all cs registry) n ≡ registered registry n
  unfolding register_all
  registered-register_all [] registry n h = refl
  registered-register_all (c ∷ cs) registry n h =
      registered-register_all cs (register c registry) n h.1
      ∙ (registered-register c registry n ∙ rw h.0 refl)

  registered_last :
      (before : List (FactClass K F)) (c : FactClass K F) (later : List (FactClass K F))
      (registry : List (Text × FactClass K F))
      → Unnamed c.name later
      → registered (register_all (before ++ (c ∷ later)) registry) c.name ≡ some c
  unfolding register_all
  registered_last [] c later registry h =
      registered-register_all later (register c registry) c.name h
      ∙ (registered-register c registry c.name ∙ rw (text_eq_refl c.name) refl)
  registered_last (b ∷ before) c later registry h =
      registered_last before c later (register b registry) h

  from_dict-to_dict :
      (no_kwargs : K) (before : List (FactClass K F)) (c : FactClass K F)
      (later : List (FactClass K F)) (kind : Text) (d : FactClass K F) (fact : F)
      → text_eq d.name c.name ≡ true
      → Unnamed c.name later
      → from_dict no_kwargs (register_all (before ++ (c ∷ later)) []) (to_dict kind d fact)
        ≡ c.from_kwargs (d.to_kwargs fact)
  unfolding from_dict to_dict kwargs_or build
  from_dict-to_dict no_kwargs before c later kind d fact same h =
      rw (text_eq_sound d.name c.name same, registered_last before c later [] h) refl

-- A fact, of a unit and of a relation, whose class takes its own keyword arguments back.
pub read_back :
    {K U R : Type 0}
    → (no_kwargs : K) (us : List (FactClass K U)) (c : FactClass K U) (us' : List (FactClass K U))
      (rs : List (FactClass K R)) (d : FactClass K R) (rs' : List (FactClass K R)) (u : U) (r : R)
    → Unnamed c.name us'
    → Unnamed d.name rs'
    → c.from_kwargs (c.to_kwargs u) ≡ ok u
    → d.from_kwargs (d.to_kwargs r) ≡ ok r
    → let read =
        deserialize_fact no_kwargs
          (register_all (us ++ (c ∷ us')) [])
          (register_all (rs ++ (d ∷ rs')) []) in
      (read (to_dict (codes "unit") c u) ≡ ok (unit_fact u))
      × (read (to_dict (codes "relation") d r) ≡ ok (relation_fact r))
unfolding deserialize_fact deserialize_kind text_eq to_dict
read_back no_kwargs us c us' rs d rs' u r last last' back back' = (
  rw (from_dict-to_dict no_kwargs us c us' (codes "unit") c u (text_eq_refl c.name) last, back)
      refl,
  rw
      (
        from_dict-to_dict no_kwargs rs d rs' (codes "relation") d r (text_eq_refl d.name) last',
        back',
      )
      refl,
)
