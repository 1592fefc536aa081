-- ===== src/Fsck/Repair.antt =====
-- A volume whose free list has been repaired passes the checks of its blocks.
-- fsck_run's repair of the free list: the checker's state and the superblock behind it.
use s5fs.Base.{
  ℕ, ◌+◌, ◌*◌, ◌%◌, ◌≤◌, ◌<◌, ◌≡◌, refl, ap, ◌∙◌, ◌≢◌, List, [], ◌∷◌, arith, ℕ_discrete, All, Fresh,
}
use s5fs.Layout.{sb_isize, sb_fsize, sb_free}
use s5fs.Endian.{Buf, get16, get32}
use s5fs.Image.{block}
use s5fs.Fsck.Check.{Ck, refs, check_partition}
use s5fs.Fsck.Salvage.{Salvage, write_super, salvage}
use s5fs.Fsck.Rebuild.{as_handle, IsSalvaged, salvage-IsSalvaged}
use s5fs.FreeList.Volume.{IsVolume, InData}
use s5fs.FreeList.Chain.{Chain}
use s5fs.Fsck.Agrees.{IsReadable, IsClear}
use s5fs.Fsck.Clean.{IsUsed, check_free_list-check_partition}
use s5fs.Fsck.Walk.{finished, check_free_list}
use s5fs.Fsck.Reload.{
  recheck, super-IsVolume, reload_isize, reload_fsize, reload-Chain, reload-IsReadable,
  reload-use_map,
}

abbrev pub repaired : (ℕ → ℕ) → ℕ → Buf → Ck → Ck × Buf
repaired uninit files sb c = write_super files sb (salvage uninit c)

zero_unless-Fresh :
    (u : ℕ → ℕ) (xs : List ℕ) → ((i : ℕ) → u i ≢ 0 → Fresh i xs) → All (λ x. u x ≡ 0) xs
zero_unless-Fresh u [] h = tt
zero_unless-Fresh u (x ∷ xs) h = (
  elim (ℕ_discrete (u x) 0) [ yes e ↦ e | no ne ↦ absurd ((h x ne).0 refl) ],
  zero_unless-Fresh u xs (λ i ne. (h i ne).1),
)

recheck-clean :
    (files : ℕ) (sb : Buf) (c : Ck) (s : Ck × Salvage) (xs : List ℕ)
    → IsSalvaged c s xs
    → 1 < c.fsize
    → get16 c.bo sb sb_isize ≡ c.isize
    → get32 c.bo sb sb_fsize ≡ c.fsize
    → (c' : Ck) × (check_free_list (write_super files sb s).1 (recheck (write_super files sb s))
        ≡ finished c')
      × ((check_partition c').errors ≡ c.errors)
recheck-clean files sb c s xs z big p q =
    let (c', e, same) =
      check_free_list-check_partition (write_super files sb s).1 (recheck (write_super files sb s))
        xs (reload-IsReadable files sb s xs v p' q') chain clear v.distinct used in
    (c', e, same ∙ (reload-use_map files sb s).1 ∙ z.same.errors)
  where
    p' : get16 s.0.bo sb sb_isize ≡ s.0.isize
    p' = rw (z.same.bo, z.same.isize) p

    q' : get32 s.0.bo sb sb_fsize ≡ s.0.fsize
    q' = rw (z.same.bo, z.same.fsize) q

    v : IsVolume (as_handle ((write_super files sb s).0, s.1)) xs
    v = super-IsVolume files sb s xs z.volume (omega (arith, z.same.fsize))

    r : Ck
    r = recheck (write_super files sb s)

    chain :
        Chain r.bo
          (block r.fd r.base r.prof.bsize)
          r.nfree
          (λ k. get32 r.bo (write_super files sb s).1 (sb_free + 4 * k))
          xs
    chain = reload-Chain files sb s xs v

    marks : (i : ℕ) → r.use_map i ≡ refs c i
    marks i = ap (λ u. u i) (reload-use_map files sb s).0 ∙ ap (λ u. u i % 128) z.same.use_map

    range : (x : ℕ) → InData (as_handle s) x → (r.isize ≤ x) × (x < r.fsize)
    range x h = (
      omega (arith, h.0, reload_isize files sb s p'),
      omega (arith, h.1, reload_fsize files sb s q'),
    )

    clear : All (IsClear r) xs
    clear = all_clear xs z.volume.range (zero_unless-Fresh (refs c) xs z.used)
      where
        all_clear :
            (ys : List ℕ)
            → All (InData (as_handle s)) ys
            → All (λ x. refs c x ≡ 0) ys
            → All (IsClear r) ys
        all_clear [] a b = tt
        all_clear (y ∷ ys) a b =
            (((range y a.0).0, (range y a.0).1, marks y ∙ b.0), all_clear ys a.1 b.1)

    used : (i : ℕ) → r.isize ≤ i → i < r.fsize → Fresh i xs → IsUsed r i
    used i lo hi fresh =
        let ne =
          z.free i (omega (arith, reload_isize files sb s p', z.same.isize))
            (omega (arith, reload_fsize files sb s q', z.same.fsize)) fresh in
        (λ e. ne (omega (arith, marks i)), ground (arith, marks i))

-- The free list that fsck's repair builds passes fsck's own checks. On an image that holds the whole
-- volume, with the i-list inside it, and with a superblock buffer `sb` that states its limits,
-- whatever the free list was, a later run that counts the references that this one counted walks the
-- free list of the repaired volume to its end, and finds neither a block on it that is out of range,
-- used or listed twice, nor a data block that is neither used nor free, nor one that is both.
pub repair-clean :
    (uninit : ℕ → ℕ) (files : ℕ) (sb : Buf) (c : Ck)
    → IsReadable c
    → c.isize ≤ c.fsize
    → get16 c.bo sb sb_isize ≡ c.isize
    → get32 c.bo sb sb_fsize ≡ c.fsize
    → (c' : Ck) × (check_free_list
          (repaired uninit files sb c).1
          (recheck (repaired uninit files sb c))
        ≡ finished c')
      × ((check_partition c').errors ≡ c.errors)
repair-clean uninit files sb c r inside p q =
    let (xs, z) = salvage-IsSalvaged uninit c r inside in
    recheck-clean files sb c (salvage uninit c) xs z (omega (arith, r.low)) p q
