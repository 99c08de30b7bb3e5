-- ===== src/Lib.antt =====
-- The logic of totem-backend, a multi-tenant back office over django.
--
-- The parts, and the files that model them. Each definition is named after the function or the
-- method of the source that it follows; a helper says in a comment which expression it stands for.
--
-- `Base`: lists, texts (lists of code points), `sorted`, `" ".join` and `split`, shared by all.
-- `Auth.Scopes`: the registry of permissions (src/user/access_rights.py) and the test of a route's
--   scopes (`ScopedPrincipalMixin` of src/authentication/principal.py).
-- `Auth.AccessTokens`: src/authentication/tokens.py and `JWTAuth` of
--   src/authentication/authenticators.py. The signing library is the record `Jwt`, the text form of a
--   primary key is the record `PkCodec`; both hold the documented behaviour that the code relies on.
-- `Auth.RefreshTokens`: the queryset of src/authentication/models/refresh_token.py, over the list
--   of the rows of the table.
-- `Auth.Sessions`: `AuthService` of src/authentication/services.py. It calls the three modules above,
--   inside transactions: an outcome that raises an integrity error leaves the state as it was.
--   `Reach` is the step relation of the whole: logins, rotations, sign-outs, purges, in any order.
-- `Auth.ApiKeys`: the queryset of src/authentication/models/api_key.py, and `ApiKeyAuth`.
-- `Access`: src/user/access_policy.py, the registry of access rules and what they leave of a
--   queryset. The `Q` expressions of django are the record `Lookups`.
-- `Computed.Bindings`, `Computed.Depths`: `_merge` and `_compute_depths` of
--   src/core/orm/fields/computed/dependency.py. The depth-first search takes fuel, one more than the
--   number of fields, enough since each call on the stack is on another field.
-- `Computed.Refresh`: `RefreshComputedFieldsContext` of src/core/orm/fields/computed/context.py, over
--   a database given as the record `Store`. `flush` takes fuel, more than the greatest depth: a round
--   of a depth leaves deeper fields only.
-- `Computed.UnitOfWork`: the nested `with` blocks of that context, as a tree of blocks.
-- `Tenancy`: src/core/db/tenancy.py, the names of the tenant databases and the connection handler, for
--   one thread; opening a connection and its pool is django's.
-- `Files`: `CleanupFileModelMixin` of src/base/models/mixins.py, over the dicts of one instance.
-- `Scheduler`: `TenantDatabaseScheduler` of src/core/celery/scheduler.py, over schedulers of the tenants
--   that are given by how they load and tick.
--
-- `Service.Errors`: the errors of src/core/services/exceptions.py, which the rest of `Service` raises.
-- `Service.Relations`: `to_internal_values` and `_resolve_relation` of src/core/services/base.py, over
--   related tables and the rows that their services let the user read (`Backend`).
-- `Service.Records`: `display_name`, `resolve_relation_records` and what the groups of `group_by` become
--   by them.
-- `Service.Defaults`, `Service.Creation`: `CreateMixin` of src/core/services/mixins.py: the values that a
--   creation starts from, then what it does in its transaction, over the tables of a `TableBackend`. What
--   raises leaves the tables as they were.
-- `Service.Links`, `Service.Update`: `UpdateMixin`: the links of one many-to-many, over their table, then
--   the whole, over the tables of an `UpdateBackend`. The constraints of a through model beside its
--   unique pair (that of src/user/models/user_role.py, say) are the test `conflicts` on two links.
-- `Service.Resequence`: `ResequenceMixin` of src/core/services/mixins.py.
-- `Service.GroupBy`: src/core/services/group_by.py: `Declarations` when a service is declared, then the
--   checks and the order of a request.
--
-- Times and lifetimes are whole seconds. Identifiers, digests, models and field names are numbers
-- where the code only compares them. Random values are drawn by the caller (`Draw`). Logging, the
-- signals of django, the HTTP layer and the SQL behind a queryset are not modelled, nor are the
-- deletion of a service (a cascade that django collects) and the hooks that services override.
pub mod Base
pub mod Auth
pub mod Access
pub mod Computed
pub mod Tenancy
pub mod Files
pub mod Scheduler
pub mod Service
