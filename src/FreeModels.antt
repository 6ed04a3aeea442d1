-- ===== src/FreeModels.antt =====
-- internal/service/freemodels/service.go: the models of OpenRouter that cost nothing, and the cheapest
-- of the others. `strconv.ParseFloat` and the answer of the API are parameters.
pub mod Catalog
pub mod Service
