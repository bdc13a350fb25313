-- ===== src/Subr/Types.antt =====
-- hammer2_subr.c: the object types of the media, and the vnode and directory entry types.
use windows_hammer2_dfly.Common.{ℕ, ◌≡◌, ◌≢◌, ◌==◌, if◌then◌else◌, arith}

-- DT_DIR and so on, which are also VDIR and so on; VBAD is DT_UNKNOWN.
abbrev pub dt_unknown : ℕ
dt_unknown = 0

abbrev pub dt_fifo : ℕ
dt_fifo = 1

abbrev pub dt_chr : ℕ
dt_chr = 2

abbrev pub dt_dir : ℕ
dt_dir = 4

abbrev pub dt_blk : ℕ
dt_blk = 6

abbrev pub dt_reg : ℕ
dt_reg = 8

abbrev pub dt_lnk : ℕ
dt_lnk = 10

abbrev pub dt_sock : ℕ
dt_sock = 12

-- HAMMER2_OBJTYPE_DIRECTORY and so on. UNKNOWN and WHITEOUT go with every other number.
unfoldable pub get_dtype : ℕ → ℕ
get_dtype type =
    if type == 1
    then dt_dir
    else if type == 2
    then dt_reg
    else if type == 4
    then dt_fifo
    else if type == 5
    then dt_chr
    else if type == 6
    then dt_blk
    else if type == 7
    then dt_lnk
    else if type == 9
    then dt_sock
    else dt_unknown

unfoldable pub get_vtype : ℕ → ℕ
get_vtype type =
    if type == 1
    then dt_dir
    else if type == 2
    then dt_reg
    else if type == 4
    then dt_fifo
    else if type == 5
    then dt_chr
    else if type == 6
    then dt_blk
    else if type == 7
    then dt_lnk
    else if type == 9
    then dt_sock
    else dt_unknown

unfoldable pub get_obj_type : ℕ → ℕ
get_obj_type vtype =
    if vtype == dt_dir
    then 1
    else if vtype == dt_reg
    then 2
    else if vtype == dt_fifo
    then 4
    else if vtype == dt_sock
    then 9
    else if vtype == dt_chr
    then 5
    else if vtype == dt_blk
    then 6
    else if vtype == dt_lnk
    then 7
    else 0

-- An object type that has a vnode type comes back from it, and a vnode type that has an object type
-- comes back from that.
get_obj_type-get_vtype :
    (t : ℕ)
    → (get_vtype t ≢ dt_unknown → get_obj_type (get_vtype t) ≡ t)
      × (get_obj_type t ≢ 0 → get_vtype (get_obj_type t) ≡ t)
unfolding get_vtype get_obj_type
get_obj_type-get_vtype t = (λ h. ground arith, λ h. ground arith)
