-- ===== src/Dio/View.antt =====
-- What the buffers of a device show of it: a byte of the volumes is that of the buffer which
-- covers it, if that has its content, and the device's otherwise.
use windows_hammer2_dfly.Common.{
  ℕ, ◌-◌, ◌+◌, ◌%◌, ◌^◌, ◌≤◌, ◌<◌, ◌≡◌, ◌≢◌, refl, sym, ap, subst, ◌∙◌, true, false, Option, none,
  some, some-injective, if◌then◌else◌, Checked, ok, panic, ℕ_discrete,
}
use windows_hammer2_dfly.Common.Words.{low_bits}
use windows_hammer2_dfly.Disk.{pbuf_size, level1_radix}
use windows_hammer2_dfly.Ondisk.Types.{Volume}
use windows_hammer2_dfly.Ondisk.Volumes.{get_volume}
use windows_hammer2_dfly.Dio.Types.{Dio, IoDev, pbase_of, bdev_number, lookup}
use windows_hammer2_dfly.Dio.Table.{Replaced, AllDistinct}

-- The references to the buffer of a base, of which none is no buffer.
abbrev pub references : Option Dio → ℕ
references none = 0
references (some d) = d.refs

-- The byte at an offset of a buffer: its content's, or that of its place on the device.
abbrev pub content_at : Option (ℕ → ℕ) → ℕ → ℕ
content_at none o = 0
content_at (some buf) o = buf o

abbrev pub dio_byte : (ℕ → ℕ → ℕ) → Dio → ℕ → ℕ
dio_byte media d o = if d.good then content_at d.content o else media d.bdev (d.pbase - d.dbase + o)

-- The byte of a device at an offset in the volumes.
abbrev pub disk_byte : (ℕ → ℕ → ℕ) → Checked Volume → ℕ → ℕ
disk_byte media panic x = 0
disk_byte media (ok v) x = media (bdev_number v.dev) (pbase_of x - v.offset + (x - pbase_of x))

abbrev pub shown : (ℕ → ℕ → ℕ) → Checked Volume → Option Dio → ℕ → ℕ
shown media v none x = disk_byte media v x
shown media v (some d) x = dio_byte media d (x - pbase_of x)

unfoldable pub view : IoDev → ℕ → ℕ
view s x = shown s.media (get_volume s.nvolumes s.volumes (pbase_of x)) (lookup (pbase_of x) s) x

-- Where `d` lies: at a whole buffer of its volume, which starts at a whole GB.
pub record IsPlaced (s : IoDev) (p : ℕ) (d : Dio) : Type 0 where
  pub volume : Volume
  pub served : get_volume s.nvolumes s.volumes p ≡ ok volume
  pub bdev : d.bdev ≡ bdev_number volume.dev
  pub dbase : d.dbase ≡ volume.offset
  pub whole : low_bits volume.offset level1_radix ≡ 0
  pub above : volume.offset ≤ p
  pub pbase : d.pbase ≡ p
  pub aligned : p % pbuf_size ≡ 0
  pub small : p < 2 ^ 64

-- A buffer that has its content has one, and an unchanged one that of the device.
pub record IsFilled (media : ℕ → ℕ → ℕ) (d : Dio) : Type 0 where
  pub present : d.good ≡ true → (buf : ℕ → ℕ) × (d.content ≡ some buf)
  pub clean :
      d.good ≡ true
      → d.dirty ≡ false
      → (o : ℕ) → o < pbuf_size
      → content_at d.content o ≡ media d.bdev (d.pbase - d.dbase + o)

pub record IsSound (s : IoDev) (p : ℕ) (d : Dio) : Type 0 where
  pub placed : IsPlaced s p d
  pub filled : IsFilled s.media d
  pub free : d.refs ≡ 0 → d.good ≡ false

pub record IsCoherent (s : IoDev) : Type 0 where
  pub distinct : AllDistinct s
  pub sound : (p : ℕ) (d : Dio) → lookup p s ≡ some d → IsSound s p d

-- What lies at the same place, in a state with the same volumes.
pub IsPlaced-alike :
    (s t : IoDev) (p : ℕ) (d e : Dio)
    → t.nvolumes ≡ s.nvolumes
    → t.volumes ≡ s.volumes
    → e.bdev ≡ d.bdev
    → e.dbase ≡ d.dbase
    → e.pbase ≡ d.pbase
    → IsPlaced s p d
    → IsPlaced t p e
IsPlaced-alike s t p d e n v b o l q = record {
  volume = q.volume;
  served = rw (n, v) q.served;
  bdev = b ∙ q.bdev;
  dbase = o ∙ q.dbase;
  whole = q.whole;
  above = q.above;
  pbase = l ∙ q.pbase;
  aligned = q.aligned;
  small = q.small;
}

-- A buffer is sound for any state with the same volumes and media.
pub IsSound-same :
    (s t : IoDev) (p : ℕ) (d : Dio)
    → t.media ≡ s.media
    → t.nvolumes ≡ s.nvolumes
    → t.volumes ≡ s.volumes
    → IsSound s p d
    → IsSound t p d
IsSound-same s t p d m n v sound = record {
  placed = IsPlaced-alike s t p d d n v refl refl refl sound.placed;
  filled = subst (λ (media : ℕ → ℕ → ℕ). IsFilled media d) (sym m) sound.filled;
  free = sound.free;
}

module _ (s t : IoDev) (p : ℕ) (e : Dio) (r : Replaced s p e t) where
  -- A replaced buffer that is sound leaves the others so.
  pub Replaced-IsCoherent : IsCoherent s → IsSound s p e → IsCoherent t
  Replaced-IsCoherent c sound = record {
    distinct = r.distinct;
    sound = λ q d h. elim (ℕ_discrete q p) [
      | yes same ↦
          let e-d : e ≡ d =
            some-injective e d (sym r.here ∙ ap (λ (a : ℕ). lookup a t) (sym same) ∙ h) in
          subst (λ (x : Dio). IsSound t q x) e-d
            (subst (λ (a : ℕ). IsSound t a e) (sym same)
              (IsSound-same s t p e r.media r.nvolumes r.volumes sound))
      | no ne ↦
          IsSound-same s t q d r.media r.nvolumes r.volumes
            (c.sound q d (sym (r.elsewhere q ne) ∙ h))
    ];
  }

  pub view-Replaced_ne : (x : ℕ) → pbase_of x ≢ p → view t x ≡ view s x
  unfolding view
  view-Replaced_ne x ne = rw (r.elsewhere (pbase_of x) ne, r.media, r.nvolumes, r.volumes) refl

  pub view-Replaced_here : (x : ℕ) → pbase_of x ≡ p → view t x ≡ dio_byte s.media e (x - p)
  unfolding view
  view-Replaced_here x same =
      ap (λ (o : Option Dio). shown t.media (get_volume t.nvolumes t.volumes (pbase_of x)) o x)
        (ap (λ (a : ℕ). lookup a t) same ∙ r.here)
      ∙ ap (λ (media : ℕ → ℕ → ℕ). dio_byte media e (x - pbase_of x)) r.media
      ∙ ap (λ (a : ℕ). dio_byte s.media e (x - a)) same

-- What a buffer of a base, or none, shows.
pub view-some :
    (s : IoDev) (x : ℕ) {d : Dio}
    → lookup (pbase_of x) s ≡ some d
    → view s x ≡ dio_byte s.media d (x - pbase_of x)
unfolding view
view-some s x h =
    ap (λ (o : Option Dio). shown s.media (get_volume s.nvolumes s.volumes (pbase_of x)) o x) h

pub view-none :
    (s : IoDev) (x : ℕ)
    → lookup (pbase_of x) s ≡ none
    → view s x ≡ disk_byte s.media (get_volume s.nvolumes s.volumes (pbase_of x)) x
unfolding view
view-none s x h =
    ap (λ (o : Option Dio). shown s.media (get_volume s.nvolumes s.volumes (pbase_of x)) o x) h
