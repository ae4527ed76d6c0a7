-- ===== src/Pipeline/Evidence/Sources.antt =====
-- Which sources the evidence shows.
use audit_zoo_bug_byters.Base.{
  ℕ, suc, zero, ◌≤◌, ◌≡◌, refl, inl, inr, Bool, true, false, not, ◌&&◌, ◌||◌, none, some, List, [],
  ◌∷◌, Text, is_empty, contains, length, All, Bool-cases, Option-cases, arith,
}
use audit_zoo_bug_byters.Pipeline.Evidence.{
  truncate_field, alt_sources, is_self_flow_source, pick_alt, choose_source,
}

-- An alternative that is not seen yet, and none after it is the same.
abbrev pub IsFresh : List Text → List Text → Type 0
IsFresh seen [] = Unit
IsFresh seen (s ∷ ss) = (is_empty s ≡ false) × (contains seen s ≡ false) × IsFresh (s ∷ seen) ss

-- The alternatives that are shown are at most as many as are left, none is empty, and none is among
-- the sources seen before it.
pub alt_sources-IsFresh :
    (seen : List Text) (left : ℕ) (alts : List Text)
    → (length (alt_sources seen left alts) ≤ left) × IsFresh seen (alt_sources seen left alts)
unfolding alt_sources
alt_sources-IsFresh seen zero alts = (omega arith, tt)
alt_sources-IsFresh seen (suc left) [] = (omega arith, tt)
alt_sources-IsFresh seen (suc left) (alt ∷ alts) =
    elim (Bool-cases
      (not (is_empty (truncate_field alt)) && not (contains seen (truncate_field alt)))) [
        | inl new ↦
            let (few, fresh) = alt_sources-IsFresh (truncate_field alt ∷ seen) left alts in
            rw new (omega (arith, few), (ground arith, ground arith, fresh))
        | inr old ↦ rw old (alt_sources-IsFresh seen (suc left) alts)
      ]

module _ (is_word : ℕ → Bool) (fold : ℕ → ℕ) (sink_code sink_api : Text) where
  -- An alternative that can not take the place of the source.
  abbrev pub IsUseless : Text → Type 0
  IsUseless alt =
      (is_empty (truncate_field alt)
        || is_self_flow_source is_word fold (truncate_field alt) sink_code sink_api)
      ≡ true

  pick_alt-some :
      (alts : List Text) {alt : Text}
      → pick_alt is_word fold sink_code sink_api alts ≡ some alt
      → is_self_flow_source is_word fold alt sink_code sink_api ≡ false
  unfolding pick_alt
  pick_alt-some [] h = cc
  pick_alt-some (a ∷ alts) {alt} h =
      elim (Bool-cases (
        not (is_empty (truncate_field a))
        && not (is_self_flow_source is_word fold (truncate_field a) sink_code sink_api))) [
          | inl good ↦ let e : truncate_field a ≡ alt = ground arith in rw (← e) (ground arith)
          | inr bad ↦ pick_alt-some alts {alt = alt} (rw bad at h)
        ]

  pick_alt-none :
      (alts : List Text) → pick_alt is_word fold sink_code sink_api alts ≡ none → All IsUseless alts
  unfolding pick_alt
  pick_alt-none [] h = tt
  pick_alt-none (a ∷ alts) h =
      elim (Bool-cases (
        not (is_empty (truncate_field a))
        && not (is_self_flow_source is_word fold (truncate_field a) sink_code sink_api))) [
          | inl good ↦ absurd (cc (rw good at h))
          | inr bad ↦ (ground arith, pick_alt-none alts (rw bad at h))
        ]

  -- If the source that the evidence shows can not be told from the sink, then it is the one that
  -- was reported, and no alternative could take its place: each is empty or such a source itself.
  pub choose_source-IsUseless :
      (source : Text) (alts : List Text)
      → let chosen = (choose_source is_word fold source sink_code sink_api alts).0 in
        is_self_flow_source is_word fold chosen sink_code sink_api ≡ true
        → (chosen ≡ source) × All IsUseless alts
  unfolding choose_source
  choose_source-IsUseless source alts h =
      elim (Bool-cases (is_self_flow_source is_word fold source sink_code sink_api)) [
        | inl bad ↦ elim (Option-cases (pick_alt is_word fold sink_code sink_api alts)) [
          | inl nothing ↦ rw (bad, nothing) (refl, pick_alt-none alts nothing)
          | inr (alt, found) ↦
              absurd (cc (pick_alt-some alts {alt = alt} found, rw (bad, found) at h))
        ]
        | inr good ↦ absurd (cc (good, rw good at h))
      ]
