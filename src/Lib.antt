-- ===== src/Lib.antt =====
-- template-fastapi: a FastAPI service with OpenID Connect, a CRUD example and a cache, and the
-- scripts that release it and keep its instances in step with the template.
--
-- The parts, and the files that model them (paths from the repository's root, without its
-- leading src/ where it names the checkout; functions keep their names):
--   Settings     src/app/config.py. The fields as a record, the validators in the order in which
--                pydantic runs them (`validate`), and the URLs computed from the fields.
--                Settings/Urls is the part of `urllib.parse.urlsplit` that they use.
--   Auth         src/app/oidc.py, src/app/controllers/mock.py and src/app/controllers/audit.py.
--                `get_current_claims` decodes a request's token, with the discovered client as
--                state; Auth/Refused is about its errors and Auth/Warm about decoding on the event
--                loop. Auth/Roles is `require_roles`, which reads those claims, Auth/Granted what it
--                reads of them, and Auth/Mock the issuer of MODE=mock. The settings decide the
--                mode, the issuer and the audience.
--   Cache        src/app/cache.py. Cache/Redis and Cache/Memory are the two caches, Cache/Build
--                makes the one that the settings ask for, Cache/Stream is `run_invalidation`, which
--                drops a resource's entries on each of its events.
--   RateLimit    src/app/rate_limit.py: how the limiter opens its storage, what it reads off a
--                handler when it decorates it, and the calls of the decorated route.
--   Heroes       src/app/views/hero_v1.py and src/app/views/hero_v2.py: the two shapes of the
--                example resource and the conversions between them. Heroes/Routers is
--                src/app/crud_1/heroes: the CRUD interface that the claims of a request give, and
--                the options of the routers.
--   Maintenance  src/app/maintenance.py: the purge of archived rows and the run that commits it, or
--                whose session is rolled back.
--   App          src/app/main.py (`lifespan` in App/Lifespan, what the mode decides in App/Modes),
--                src/app/crud_1/wiring.py (App/Wiring, with what a deployment gets),
--                src/app/http_headers.py (App/Headers, and App/Secured about its middleware),
--                src/app/problem_details.py, src/app/well_known.py,
--                src/app/db.py, src/app/health_checks.py, and in App/Analytics src/app/analytics.py
--                and src/app/crud_1/analytics_events.py. The handlers answer the errors that Auth
--                raises; the documents, the health registry and the options of the database engine
--                are made from the settings. App/Protected is a route with its role check and the
--                handlers together.
--   Manifest     .github/scripts/template_sync_manifest.py: the parser of the manifest, its patterns
--                (Manifest/Fnmatch is Python's `fnmatch`) and the check that every tracked path is
--                in one tier.
--   Sync         .github/scripts/template_sync.py. Sync/Tiers lists the paths of a tier of the
--                manifest in the two checkouts of the template; Sync/Replace and Sync/Merge apply
--                the two tiers to an instance's tree; Sync/Command is the command that runs them
--                and the one that checks its result; Sync/State is the state file. Sync/Synced and
--                Sync/Covered put the parts together for a whole run, from the text of a manifest, and
--                Sync/Announced is about the pull request that a run leads to.
--   Release      .github/scripts/compute_next_version.py, and the choice of a channel's tag in
--                .github/scripts/template_sync.py: tags, their order and text, the next version;
--                Release/Delivered is about both scripts on the same tags.
--   Dist         .github/scripts/assemble_dist.py: the names of the architectures, the claims on
--                paths that decide whether their tarballs may be extracted into one directory, and
--                in Dist/Assembly the extraction into a staging directory that becomes `dist`.
--   Devcontainer .github/scripts/check_devcontainer_lock.py: the features of the configuration and
--                of the lock file, and what is in one of them only.
--   Base         what the parts share: tests and equality, lists, texts, dictionaries, exceptions
--                as results, JSON values.
--
-- State is passed explicitly: the discovered client and the log (Auth), the cache with its server
-- (Cache), the instance's tree with the reports (Sync). Exceptions are values of a result type. A
-- text is a native string, or a list of code points where the code looks at characters. Python's
-- integers are unbounded; they are natural numbers where the code cannot make them negative.
-- Floating-point seconds are whole microseconds. All recursion is on lists, except in
-- `decimal_onto`, which prints a number n with n + 1 as its fuel: each step divides by ten, so the
-- fuel is never used up.
--
-- Parameters stand for code that is not in the repository, with the behaviour that the code relies
-- on as laws: the identity provider with PyJWT (`Provider`), Redis and its glob patterns (`Redis`,
-- `IsRedis`), `git merge-file` (`Git`), Starlette's headers (`Headers`), the character tables of
-- Python (`Platform`, `digit_of`), the phrases of `HTTPStatus`, the printing of a date, the
-- strategy of the limits library (`Strategy`, `IsWindow`), a database whose statements can fail
-- (`Database`), the listing of a checkout (`Root`, `IsRoot`), and the tarfile library and the disk
-- (`extract`, `Disk`). Each law holds of a concrete function in the module of tests beside it.
--
-- Not modelled: what the CRUD routers, interfaces and repositories do, which is the
-- craftainer_crud library; SQLAlchemy, Alembic and the migrations, which are calls of it;
-- telemetry, the tracking of analytics and the health checks themselves, which are libraries;
-- reading files, the environment and command lines; shell scripts and workflows. In Sync,
-- a tree has files and links only: the directories that a file needs are always there, no directory
-- stands at a path that another tree has as a file (the script, whose `.exists()` is true of one,
-- raises there and exits with 2), and writes succeed. That the owner of the instance cannot read a
-- file is an error of the merge tier; the replace tier is modelled for files that can be read. In
-- Auth, the discovery document is an object and its URL valid: other errors are not caught by
-- `_get_jwks_client` and not represented.
pub mod Base
pub mod Settings
pub mod Auth
pub mod Cache
pub mod RateLimit
pub mod Heroes
pub mod Maintenance
pub mod App
pub mod Manifest
pub mod Sync
pub mod Release
pub mod Dist
pub mod Devcontainer
