-- ===== src/Cache/Rows.antt =====
-- src/cache/batch_kv_cache.cpp: `filter` and `pad_dummies` keep what the rows hold.
use libmlxforge.Common.{
  ℕ, zero, suc, ◌+◌, ◌≤◌, ◌<◌, [], ◌++◌, map, replicate, ◌≡◌, refl, sym, ◌∙◌, ap, subst, arith,
  length-append, length-replicate, append-nil,
}
use libmlxforge.Cache.Arrays.{ArrayLib, ArrayLaws, IsRect}
use libmlxforge.Cache.Batch.{Layer, BatchKvCache, pad_rows, pad_dummies, map_option}
use libmlxforge.Cache.Contents.{contents}
use libmlxforge.Cache.Moves.{All}
use libmlxforge.Cache.Surgery.{pad_rows_lem, map_same}
use libmlxforge.Cache.Whole.{
  arrays, arrays-map, FirstKeys-map, IsWell, held, lift, All-append, All-replicate,
}

module _ {A S : Type 0} (lib : ArrayLib A S) (laws : ArrayLaws lib) where
  -- `pad_dummies` leaves what the rows hold and adds rows that hold nothing.
  pub pad_dummies_lem :
      (extra cap : ℕ) (c : BatchKvCache A)
      → IsWell lib cap c
      → 0 < c.batch
      → IsWell lib cap (pad_dummies lib extra c)
        × (held lib (pad_dummies lib extra c) ≡ map (λ h. h ++ replicate extra []) (held lib c))
        × ((pad_dummies lib extra c).offset ≡ c.offset ++ replicate extra 0)
  unfolding pad_dummies
  pad_dummies_lem zero cap c w pos =
      (w, sym (map_same (λ h. h ++ []) (held lib c) (λ x. append-nil x)), sym (append-nil c.offset))
  pad_dummies_lem (suc more) cap c w pos =
      let extra = suc more in
      let pad_layer : Layer A → Layer A = λ l. record {
        keys = map (pad_rows lib extra) l.keys;
        values = map (pad_rows lib extra) l.values;
        conv_state = map_option (pad_rows lib extra) l.conv_state;
        recur_state = map_option (pad_rows lib extra) l.recur_state;
      } in
      let lps = c.left_padding ++ replicate extra c.idx in
      let same : arrays (map pad_layer c.layers) ≡ map (pad_rows lib extra) (arrays c.layers) =
        arrays-map (pad_rows lib extra) pad_layer c.layers (λ l. refl) (λ l. refl) in
      let (rects, holds) =
        lift (IsRect lib c.batch cap) (IsRect lib (c.batch + extra) cap) (pad_rows lib extra)
          (λ a. contents c.left_padding c.idx (lib.rows a)) (λ a. contents lps c.idx (lib.rows a))
          (λ h. h ++ replicate extra []) (arrays c.layers)
          (λ a r. pad_rows_lem lib laws extra c.batch cap a c.left_padding c.idx r pos w.paddings)
          w.rects in
      (
        record {
          paddings = omega (
            arith,
            length-append c.left_padding (replicate extra c.idx),
            length-replicate extra c.idx,
            w.paddings,
          );
          offsets = omega (
            arith,
            length-append c.offset (replicate extra 0),
            length-replicate {A = ℕ} extra 0,
            w.offsets,
          );
          rects = subst (All (IsRect lib (c.batch + extra) cap)) (sym same) rects;
          first = FirstKeys-map (pad_rows lib extra) pad_layer c.layers (λ l. refl) w.first;
          fits = w.fits;
          behind =
              All-append (λ v. v ≤ c.idx) c.left_padding (replicate extra c.idx) w.behind
                (All-replicate (λ v. v ≤ c.idx) extra c.idx (omega arith));
        },
        ap (map (λ a. contents lps c.idx (lib.rows a))) same ∙ holds,
        refl,
      )
