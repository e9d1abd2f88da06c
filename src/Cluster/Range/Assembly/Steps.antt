-- ===== src/Cluster/Range/Assembly/Steps.antt =====
-- crates/nzbd-cluster/src/range.rs: an assembly that succeeds has passed each of its steps.
use nzbd.Prelude.{◌≡◌, refl, Bool, true, false, Option, none, some, arith}
use nzbd.Cluster.Range.Assembly.{AssemblyError, Result, ok, err, ◌>>=◌, ◌>>◌, require, ok_or}

pub >>=-eq-ok :
    {A B : Type 0} (m : Result A) (f : A → Result B) (b : B)
    → (m >>= f) ≡ ok b
    → (a : A) × (m ≡ ok a) × (f a ≡ ok b)
>>=-eq-ok (ok a) f b h = (a, refl, h)
>>=-eq-ok (err e) f b h = absurd (ground (arith, h))

pub require-eq :
    {A : Type 0} (t : Bool) (e : AssemblyError) (k : Result A) (a : A)
    → (require t e >> k) ≡ ok a
    → (t ≡ true) × (k ≡ ok a)
require-eq true e k a h = (refl, h)
require-eq false e k a h = absurd (ground (arith, h))

pub ok_or-eq :
    {A B : Type 0} (o : Option A) (e : AssemblyError) (k : A → Result B) (b : B)
    → (ok_or o e >>= k) ≡ ok b
    → (a : A) × (o ≡ some a) × (k a ≡ ok b)
ok_or-eq (some a) e k b h = (a, refl, h)
ok_or-eq none e k b h = absurd (ground (arith, h))
