-- ===== src/Capnp/Builder/Errors.antt =====
-- The errors of the builder of cf_capnp.c.
use esp_cf_tunnel.Prelude.{ℕ, ◌+◌, ◌≡◌, refl, List, [], ◌∷◌, some}
use esp_cf_tunnel.Core.{CfError}
use esp_cf_tunnel.Capnp.Builder.{
  Builder, alloc_words, set_word, build_struct, set_uint, pointer_list, blob, build_end, Build,
  put_struct, put_list, put_uint, put_blob, build, build_all,
}

module _ (e : CfError) where
  alloc_words_stays : (b : Builder) (n : ℕ) → b.error ≡ some e → alloc_words b n ≡ (0, b)
  unfolding alloc_words
  alloc_words_stays b n h = rw h refl

  set_word_stays : (b : Builder) (slot value : ℕ) → b.error ≡ some e → set_word b slot value ≡ b
  unfolding set_word
  set_word_stays b slot value h = rw h refl

  build_stays : (c : Build) (b : Builder) → b.error ≡ some e → build c b ≡ b
  unfolding build build_struct pointer_list set_uint blob
  build_stays (put_struct slot d p) b h =
      rw (alloc_words_stays b (d + p) h, set_word_stays b slot _ h) refl
  build_stays (put_list slot n) b h = rw (alloc_words_stays b n h, set_word_stays b slot _ h) refl
  build_stays (put_uint object byte width value) b h = rw h refl
  build_stays (put_blob slot value text) b h = rw h refl

  build_all_stays : (cs : List Build) (b : Builder) → b.error ≡ some e → build_all cs b ≡ b
  unfolding build_all
  build_all_stays [] b h = refl
  build_all_stays (c ∷ cs) b h = rw (build_stays c b h) (build_all_stays cs b h)

-- An error is final: whatever calls follow, the builder stays as it is, and `cf_cp_build_end` reports that
-- error and no bytes.
pub build_end_after_error :
    (b : Builder) (e : CfError) (cs : List Build)
    → b.error ≡ some e
    → (build_all cs b ≡ b) × (build_end (build_all cs b) ≡ (some e, 0, b))
unfolding build_end
build_end_after_error b e cs h = let stays = build_all_stays e cs b h in (stays, rw (stays, h) refl)
