-- ===== src/Bulkfree/Safety.antt =====
-- A whole collection: the callback over the references of the topology, and the merge after it.
use windows_hammer2_dfly.Common.{
  ℕ, ◌*◌, ◌/◌, ◌%◌, ◌<◌, ◌≡◌, refl, sym, ◌∙◌, Bool, true, false, ◌||◌, List, [], ◌∷◌, if◌then◌else◌,
  length, get_or, Checked, ok, ok-injective, ◌>>=◌, arith,
}
use windows_hammer2_dfly.Freemap.Bmap.{Bmap}
use windows_hammer2_dfly.Freemap.Bmap.Marks.{state}
use windows_hammer2_dfly.Bulkfree.Types.{Info}
use windows_hammer2_dfly.Bulkfree.Sync.{sync_adjust}
use windows_hammer2_dfly.Bulkfree.Turn.{merge}
use windows_hammer2_dfly.Bulkfree.Merge.{sync_adjust-merge}
use windows_hammer2_dfly.Bulkfree.Record.{
  Range, Call, Gather, proceed, init_bmap, throttle, record_data, callback,
}
use windows_hammer2_dfly.Bulkfree.Scanned.{
  in_range, IsGathering, IsReference, block, touches_in, record_data-IsMarkedFor,
}

-- A call of the callback: its environment, and the type and the data offset of the reference.
pub record Visit : Type 0 where
  pub call : Call
  pub type : ℕ
  pub data_off : ℕ

-- The visits of a scan in their order, up to the first that fails.
unfoldable pub visits : Range → List Visit → Gather → Checked Gather
visits r [] g = ok g
visits r (v ∷ vs) g = callback r v.call v.type v.data_off g >>= λ result. visits r vs result.1

-- Block `n` holds data of one of the references.
abbrev pub touched : Range → List Visit → ℕ → Bool
touched r [] n = false
touched r (v ∷ vs) n = touches_in r v.data_off n || touched r vs n

-- No signal is pending in a visit, and if its reference is taken for the range, it is one that the
-- freemap hands out. References outside of the range are any.
pub record IsQuiet (r : Range) (v : Visit) : Type 0 where
  pub signal : v.call.signal ≡ 0
  pub reference : in_range r v.data_off ≡ true → IsReference v.data_off

pub data AllQuiet (r : Range) : List Visit → Type 0 where
  done : AllQuiet r []
  more : {v : Visit} {vs : List Visit} → IsQuiet r v → AllQuiet r vs → AllQuiet r (v ∷ vs)

throttle-bmaps : (c : Call) (type : ℕ) (g : Gather) → (throttle c type g).bmaps ≡ g.bmaps
unfolding throttle
throttle-bmaps c type g = ground arith

callback-record_data :
    (r : Range) (c : Call) (type data_off : ℕ) (g : Gather) (after : List Bmap)
    → c.signal ≡ 0
    → record_data r type data_off g.bmaps ≡ ok after
    → callback r c type data_off g ≡ ok (proceed, record (throttle c type g) { bmaps = after })
unfolding callback
callback-record_data r c type data_off g after quiet e = rw (throttle-bmaps c type g, e, quiet) refl

-- What the scan leaves.
pub record IsScanned (r : Range) (vs : List Visit) (before after : List Bmap) : Type 0 where
  pub gathering : IsGathering r after
  pub same_length : length after ≡ length before
  pub blocks :
      (n : ℕ)
      → n < length before * 256
      → block after n ≡ (if touched r vs n then 3 else block before n)

if_or : (a b : Bool) (x : ℕ) → (if b then 3 else if a then 3 else x) ≡ (if a || b then 3 else x)
if_or a b x = ground arith

-- A scan in which no signal is pending, of bitmaps that know only free (0) and found (3), over
-- references of which those in the range have a size, lie within one 4MB, and have no more 16KB
-- blocks than their size needs, as all storage of the freemap does, small fragments included: it ends
-- without a failed assertion; afterwards exactly the blocks that hold a byte of a reference in the
-- range are found, and every other block is as before.
pub visits-IsScanned :
    (r : Range) (vs : List Visit) (g : Gather)
    → IsGathering r g.bmaps
    → AllQuiet r vs
    → (g' : Gather) × (visits r vs g ≡ ok g') × IsScanned r vs g.bmaps g'.bmaps
unfolding visits
visits-IsScanned r [] g gathering quiet =
    (g, refl, record { gathering = gathering; same_length = refl; blocks = λ n lt. refl })
visits-IsScanned r (v ∷ vs) g gathering (more q qs) =
    let (after, e, m) = record_data-IsMarkedFor r v.type v.data_off g.bmaps gathering q.reference in
    let mid : Gather = record (throttle v.call v.type g) { bmaps = after } in
    let (g', e', s) = visits-IsScanned r vs mid m.gathering qs in
    (
      g',
      rw (callback-record_data r v.call v.type v.data_off g after q.signal e) e',
      record {
        gathering = s.gathering;
        same_length = s.same_length ∙ m.same_length;
        blocks = λ n lt.
            s.blocks n (rw (m.same_length) lt)
            ∙ rw (m.blocks n lt) (if_or _ (touched r vs n) (block g.bmaps n));
      },
    )

found_stays : (l : ℕ) → merge l 3 ≡ 3
found_stays l = refl

-- After a scan in which no signal is pending, of bitmaps that know only free (0) and found (3), over
-- references of which those in the range have a size, lie within one 4MB, and have no more 16KB
-- blocks than their size needs: the merge into a live bitmap of 8 elements leaves every block that
-- holds a byte of a reference in the range allocated (3), whatever its state was.
pub visits-sync_adjust :
    (r : Range) (vs : List Visit) (g g' : Gather)
    → IsGathering r g.bmaps
    → AllQuiet r vs
    → visits r vs g ≡ ok g'
    → (data_off : ℕ) (live : Bmap) (info : Info) → length live.bitmapq ≡ 8
    → (n : ℕ) → n < length g.bmaps * 256
    → touched r vs n ≡ true
    → state
        (sync_adjust data_off live (get_or g'.bmaps (n / 256) (init_bmap true)) info).0
        (n % 256)
      ≡ 3
visits-sync_adjust r vs g g' gathering quiet ends data_off live info words n lt found =
    let (g0, e, s) = visits-IsScanned r vs g gathering quiet in
    let same : g0 ≡ g' = ok-injective g0 g' (sym e ∙ ends) in
    let three : block g'.bmaps n ≡ 3 = rw (← same) (s.blocks n lt ∙ rw found) in
    let size : length g0.bmaps ≡ length g.bmaps = s.same_length in
    let mem_words = (s.gathering.each (n / 256) (omega arith)).words in
    sync_adjust-merge data_off live (get_or g'.bmaps (n / 256) (init_bmap true)) info words
      (rw same at mem_words) (n % 256) (omega arith)
    ∙ rw three (found_stays (state live (n % 256)))
