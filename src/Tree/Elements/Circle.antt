-- ===== src/Tree/Elements/Circle.antt =====
-- A chain of array blocks that does not end.
use go_mdf.Base.{ℕ, zero, suc, ◌≡◌, ◌≢◌, refl, List, [], ◌∷◌, ok, none, ne→==}
use go_mdf.Base.Words.{Bytes}
use go_mdf.Blocks.Header.{peek_id, same_bytes}
use go_mdf.Blocks.Array.{Ca, decode_ca, id_ca}
use go_mdf.Tree.Elements.{Dim, count_elements, walk}

-- The walk of an array block in CN-template storage, with one dimension of one element and itself as
-- its composition, does not end, whatever the fuel: it neither returns nor fails.
pub walk_circle :
    (src : Bytes) (addr : ℕ) (ca : Ca)
    → addr ≢ 0
    → decode_ca src addr ≡ ok ca
    → peek_id src addr ≡ ok id_ca
    → ca.dim_size ≡ 1 ∷ []
    → ca.storage ≡ 0
    → ca.composition ≡ addr
    → (fuel : ℕ) (dims : List Dim) → walk fuel src dims 1 addr ≡ none
unfolding walk count_elements same_bytes
walk_circle src addr ca ne decoded id dims_eq storage_eq own zero dims = refl
walk_circle src addr ca ne decoded id dims_eq storage_eq own (suc fuel) dims =
    rw (ne→== addr 0 ne, decoded, dims_eq, storage_eq, own, ne→== addr 0 ne, id)
      (walk_circle src addr ca ne decoded id dims_eq storage_eq own fuel _)
