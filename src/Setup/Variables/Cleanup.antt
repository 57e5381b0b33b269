-- ===== src/Setup/Variables/Cleanup.antt =====
-- `cleanupAudiences`, which runs before the configuration is saved.
use flamenco_manager.Common.{
  String, ◌≡◌, refl, ◌≢◌, ◌⊎◌, inl, inr, true, Option, List, [], ◌∷◌, map, ◌==◌, eq_iff, arith, ap,
  Bool-cases,
}
use flamenco_manager.Setup.Variables.{
  VarValue, Editor, set_audience, every_for_all, created, cleanup_audiences,
}

-- What a value says, without its audience.
abbrev pub content : VarValue → String × Option String
content v = (v.value, v.platform)

map-content-set_audience : (vs : List VarValue) → map content (map set_audience vs) ≡ map content vs
unfolding set_audience
map-content-set_audience [] = refl
map-content-set_audience (v ∷ vs) = rw (map-content-set_audience vs)

pub every_for_all-set_audience : (vs : List VarValue) → every_for_all (map set_audience vs) ≡ true
unfolding every_for_all set_audience
every_for_all-set_audience [] = refl
every_for_all-set_audience (v ∷ vs) = every_for_all-set_audience vs

pub map-set_audience_idem :
    (vs : List VarValue) → map set_audience (map set_audience vs) ≡ map set_audience vs
unfolding set_audience
map-set_audience_idem [] = refl
map-set_audience_idem (v ∷ vs) = rw (map-set_audience_idem vs)

-- The clean-up keeps the number and order of the values, their texts and their platforms; cleaning up
-- twice is cleaning up once; and an editor that keeps the audiences apart is left as it is.
pub cleanup_audiences_keeps :
    (e : Editor)
    → (map content (cleanup_audiences e).values ≡ map content e.values)
      × (cleanup_audiences (cleanup_audiences e) ≡ cleanup_audiences e)
      × ((e.all_audience ≢ "separate") ⊎ (cleanup_audiences e ≡ e))
unfolding cleanup_audiences
cleanup_audiences_keeps e = elim (Bool-cases (e.all_audience == "separate")) [
  | inl s ↦ (rw s, rw (s, s), inr (rw s))
  | inr n ↦ (
    rw n (map-content-set_audience e.values),
    rw (n, n) (ap (λ vs. record e { values = vs }) (map-set_audience_idem e.values)),
    inl (λ q. ground (arith, eq_iff e.all_audience "separate")),
  )
]

-- Unless the editor keeps the audiences apart, the editor that is made of the cleaned values after a
-- reload gives all audiences the same values.
pub created-cleanup_audiences :
    (e : Editor)
    → e.all_audience ≢ "separate"
    → (created e.var_name e.direction (cleanup_audiences e).values).all_audience ≡ "all"
unfolding created cleanup_audiences
created-cleanup_audiences e n = elim (Bool-cases (e.all_audience == "separate")) [
  | inl s ↦ absurd (n ((eq_iff e.all_audience "separate").0 s))
  | inr m ↦ rw (m, every_for_all-set_audience e.values)
]
