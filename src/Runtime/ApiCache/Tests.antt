-- ===== src/Runtime/ApiCache/Tests.antt =====
-- A list that is cached for 5 seconds.
use fct.Base.{◌≡◌, refl, lookup, insert, some, [], arith}
use fct.Runtime.ApiCache.{Cache, get, put, invalidate}
use fct.Runtime.ApiCache.Fresh.{IsFresh, put-IsFresh}

abbrev empty : Cache
empty = record { ttl = 5; entries = []; version = 0 }

put-IsFresh_example : IsFresh 10 12 "Doc?" "rows" empty
put-IsFresh_example = put-IsFresh 10 12 "Doc?" "rows" empty (ground arith)

-- A body built before an invalidation and put after it is served.
stale_body : get 12 "Doc?" (put 10 "Doc?" "old rows" (invalidate empty)) ≡ some "old rows"
unfolding get put invalidate lookup insert
stale_body = refl
