-- ===== src/Rawcopy/Copies.antt =====
-- The loop of win32/cpp/rawcopy.cpp on devices without errors: which bytes of the output it leaves.
use ltrdata.Prelude.{
  ℕ, ◌+◌, ◌-◌, ◌≤◌, ◌<◌, ◌≡◌, ◌⊎◌, Bool, true, List, Run, done, length, take, ◌==◌, if◌then◌else◌,
}
use ltrdata.Rawcopy.{Device, Options, Progress}
use ltrdata.Prelude.Splice.{splice}
use ltrdata.Rawcopy.Reliable.{Reliable, Ahead}

-- The bytes of the input that are to be copied: up to the `copylength`-th, unless it is 0.
abbrev pub wanted : Options → Progress → List ℕ → List ℕ
wanted o p xs = if o.copylength == 0 then xs else take (o.copylength - p.readbytes) xs

-- A count that the next block may have.
abbrev Within : Options → Progress → ℕ → Type 0
Within o p n = (o.copylength ≡ 0) ⊎ ((0 < o.copylength) × (p.readbytes + n ≤ o.copylength))

module _ {W : Type 0} (device : Device W) (r : Reliable device) (o : Options) where
  abbrev Copied : Progress → W → Run (W × Bool) → Type 0
  Copied p w run =
      (w' : W) × (run ≡ done (w', true))
      × (r.file w' ≡ splice (r.file w) (r.pos w) (wanted o p (r.input w)))
      × (r.pos w' ≡ r.pos w + length (wanted o p (r.input w)))

  abbrev Ready : Progress → W → Type 0
  Ready p w = Ahead device r o p w × (p.writtenblocks ≤ p.readbytes)
